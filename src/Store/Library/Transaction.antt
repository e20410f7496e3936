-- ===== src/Store/Library/Transaction.antt =====
-- What a transaction leaves in the file of the library.
use wine_vr.Prelude.{◌≡◌, refl, sym, ap, ◌≤◌, ◌⊎◌, inl, inr, arith}
use wine_vr.Host.Error.{Result, ok, err}
use wine_vr.Host.World.{FileAnswer, done, refused, done_late}
use wine_vr.Store.Library.{
  Library, library_version, LibraryFile, absent, unreadable, corrupt, holds, load, save,
  Library-discrete, commit, save_changed, transact_loaded, transact,
}

module _ {T : Type 0} (f : Library → T × Library) (make write : FileAnswer) where
  -- The file is as it was, or holds the library that `f` made of the loaded one.
  abbrev pub OldOrNew : LibraryFile → LibraryFile → Type 0
  OldOrNew file after =
      (after ≡ file) ⊎ ((before : Library) × (load file ≡ ok before) × (after ≡ holds (f before).1))

  written-OldOrNew :
      (file : LibraryFile) (before lib : Library)
      → load file ≡ ok before
      → (f before).1 ≡ lib
      → (m : FileAnswer) (out : T) → OldOrNew file (commit out (save m write lib file)).1
  unfolding save
  written-OldOrNew file before lib e k done out =
      elim write as (λ a. OldOrNew file (commit out (save done a lib file)).1) [
        | done ↦ inr (before, e, ap holds (sym k))
        | refused x ↦ inl refl
        | done_late x ↦ inr (before, e, ap holds (sym k))
      ]
  written-OldOrNew file before lib e k (refused x) out = inl refl
  written-OldOrNew file before lib e k (done_late x) out = inl refl

  saved-OldOrNew :
      (file : LibraryFile) (before lib : Library)
      → load file ≡ ok before
      → (f before).1 ≡ lib
      → (d : Dec (before ≡ lib)) (out : T) → OldOrNew file (save_changed d out make write file).1
  saved-OldOrNew file before lib e k (yes same) out = inl refl
  saved-OldOrNew file before lib e k (no changed) out =
      written-OldOrNew file before lib e k make out

  loaded-OldOrNew :
      (file : LibraryFile) (r : Result Library)
      → load file ≡ r
      → OldOrNew file (transact_loaded r f make write file).1
  loaded-OldOrNew file (err x) e = inl refl
  loaded-OldOrNew file (ok before) e =
      saved-OldOrNew file before (f before).1 e refl (Library-discrete before (f before).1)
        (f before).0

  -- Whatever the machine answers, a transaction leaves the file as it was, or holding exactly what the
  -- change made of the library that was loaded; a file that does not load is never replaced.
  pub transact-OldOrNew : (file : LibraryFile) → OldOrNew file (transact f make write file).1
  unfolding transact
  transact-OldOrNew file = loaded-OldOrNew file (load file) refl

  -- The result and the file of a transaction that returned.
  abbrev pub Committed : LibraryFile → T → LibraryFile → Type 0
  Committed file out after =
      (before : Library) × (load file ≡ ok before)
      × ((f before).0 ≡ out)
      × (load after ≡ ok (f before).1)

  load-holds : (lib : Library) → lib.version ≤ library_version → load (holds lib) ≡ ok lib
  unfolding load
  load-holds lib h = ground arith

  load-version :
      (file : LibraryFile) (lib : Library) → load file ≡ ok lib → lib.version ≤ library_version
  unfolding load
  load-version absent lib e = ground arith
  load-version unreadable lib e = absurd (cc)
  load-version corrupt lib e = absurd (cc)
  load-version (holds x) lib e = ground arith

  -- The change keeps a version that this Sabrage can read.
  abbrev pub KeepsVersion : Type 0
  KeepsVersion =
      (lib : Library) → lib.version ≤ library_version → (f lib).1.version ≤ library_version

  module _ (bounded : KeepsVersion) where
    written-Committed :
        (file : LibraryFile) (before lib : Library)
        → load file ≡ ok before
        → f before ≡ ((f before).0, lib)
        → (m w : FileAnswer) {out : T} → (commit (f before).0 (save m w lib file)).0 ≡ ok out
        → Committed file out (commit (f before).0 (save m w lib file)).1
    unfolding save
    written-Committed file before lib e k done done h =
        let new = ap (λ (p : T × Library). p.1) k in
        let kept = load-holds (f before).1 (bounded before (load-version file before e)) in
        (before, e, (cc), (cc))
    written-Committed file before lib e k done (refused x) h = absurd (cc)
    written-Committed file before lib e k done (done_late x) h = absurd (cc)
    written-Committed file before lib e k (refused x) w h = absurd (cc)
    written-Committed file before lib e k (done_late x) w h = absurd (cc)

    saved-Committed :
        (file : LibraryFile) (before lib : Library)
        → load file ≡ ok before
        → f before ≡ ((f before).0, lib)
        → (d : Dec (before ≡ lib)) {out : T}
        → (save_changed d (f before).0 make write file).0 ≡ ok out
        → Committed file out (save_changed d (f before).0 make write file).1
    saved-Committed file before lib e k (yes same) h =
        let new = ap (λ (p : T × Library). p.1) k in (before, e, (cc), (cc))
    saved-Committed file before lib e k (no changed) h =
        written-Committed file before lib e k make write h

    loaded-Committed :
        (file : LibraryFile) (r : Result Library)
        → load file ≡ r
        → {out : T} → (transact_loaded r f make write file).0 ≡ ok out
        → Committed file out (transact_loaded r f make write file).1
    loaded-Committed file (err x) e h = absurd (cc)
    loaded-Committed file (ok before) e h =
        saved-Committed file before (f before).1 e refl (Library-discrete before (f before).1) h

    -- A transaction that returned loaded a library, returns what the change made of it, and leaves a
    -- file that loads as the changed library. The change is assumed to keep a version that this Sabrage
    -- can read.
    pub transact-Committed :
        (file : LibraryFile) {out : T}
        → (transact f make write file).0 ≡ ok out
        → Committed file out (transact f make write file).1
    unfolding transact
    transact-Committed file h = loaded-Committed file (load file) refl h
