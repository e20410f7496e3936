-- ===== src/Config/Backups/Free.antt =====
-- config/runtime_toml.rs: a free name is found for every backup, within the numbers that are tried.
use wine_vr.Prelude.{
  ◌≡◌, refl, sym, ap, ◌∙◌, ℕ, zero, suc, ◌+◌, ◌≤◌, ◌<◌, Bool, true, false, Bool-cases, Option, some,
  ◌⊎◌, inl, inr, List, [], ◌∷◌, ◌++◌, not, length, retain, Text, text_eq, text_eq_iff, arith,
  if◌then◌else◌,
}
use wine_vr.Config.Value.{digits_value, decimal}
use wine_vr.Config.Setting.Spelling.{Fits, digits_value-decimal}
use wine_vr.Config.Site.{named, has_backup}
use wine_vr.Config.Backups.{first_name, numbered_name, free_from, next_backup_path}

abbrev others : Text → List (Text × Text) → List (Text × Text)
others name backups = retain (λ b. not (named name b)) backups

length-others_le : (name : Text) (bs : List (Text × Text)) → length (others name bs) ≤ length bs
length-others_le name [] = ground arith
length-others_le name (b ∷ bs) = ground (arith, length-others_le name bs)

length-others :
    (name : Text) (bs : List (Text × Text))
    → has_backup name bs ≡ true
    → length (others name bs) < length bs
length-others name [] h = ground arith
length-others name (b ∷ bs) h = ground (arith, length-others name bs, length-others_le name bs)

text_eq_same : (a b c : Text) → text_eq a b ≡ true → text_eq c b ≡ text_eq c a
text_eq_same a b c h = ap (text_eq c) (sym ((text_eq_iff a b).0 h))

has_backup-others :
    (name other : Text) (bs : List (Text × Text))
    → text_eq other name ≡ false
    → has_backup other bs ≡ true
    → has_backup other (others name bs) ≡ true
has_backup-others name other [] d h = ground arith
has_backup-others name other (b ∷ bs) d h =
    ground (arith, has_backup-others name other bs d, text_eq_same name b.0 other)

-- The names of `fuel` numbers from `n` on are all taken.
abbrev Taken : ℕ → ℕ → ℕ → List (Text × Text) → Type 0
Taken zero secs n bs = Unit
Taken (suc fuel) secs n bs =
    (has_backup (numbered_name secs n) bs ≡ true) × Taken fuel secs (suc n) bs

text_eq_prefix : (p a b : Text) → text_eq (p ++ a) (p ++ b) ≡ true → text_eq a b ≡ true
text_eq_prefix [] a b h = h
text_eq_prefix (c ∷ p) a b h = text_eq_prefix p a b (ground arith)

-- Up to ten digits, different numbers have different names.
numbered_name-differ :
    (secs n m : ℕ)
    → Fits 9 n
    → Fits 9 m
    → n < m
    → text_eq (numbered_name secs m) (numbered_name secs n) ≡ false
numbered_name-differ secs n m fn fm h =
    elim (Bool-cases (text_eq (numbered_name secs m) (numbered_name secs n))) [
      | inr d ↦ d
      | inl same ↦ absurd (
          let eq : m ≡ n =
            sym (digits_value-decimal 9 m fm)
            ∙ ap (digits_value 0) (
                (text_eq_iff (decimal m) (decimal n)).0 (
                  text_eq_prefix (b'-' ∷ []) (decimal m) (decimal n)
                    (text_eq_prefix (first_name secs) (b'-' ∷ decimal m) (b'-' ∷ decimal n) same)))
            ∙ digits_value-decimal 9 n fn in
          omega arith)
    ]

Taken-others :
    (fuel secs n m : ℕ) (bs : List (Text × Text))
    → n < m
    → m + fuel ≤ 4294967296
    → Taken fuel secs m bs
    → Taken fuel secs m (others (numbered_name secs n) bs)
Taken-others zero secs n m bs h b t = tt
Taken-others (suc fuel) secs n m bs h b t = (
  has_backup-others (numbered_name secs n) (numbered_name secs m) bs
      (numbered_name-differ secs n m (omega arith) (omega arith) h) t.0,
  Taken-others fuel secs n (suc m) bs (omega arith) (omega arith) t.1,
)

-- As many names are taken as there are backups at most.
Taken-length :
    (fuel secs n : ℕ) (bs : List (Text × Text))
    → n + fuel ≤ 4294967296
    → Taken fuel secs n bs
    → fuel ≤ length bs
Taken-length zero secs n bs b t = omega arith
Taken-length (suc fuel) secs n bs b t =
    let rest = others (numbered_name secs n) bs in
    let less = length-others (numbered_name secs n) bs t.0 in
    let tail =
      Taken-length fuel secs (suc n) rest (omega arith)
        (Taken-others fuel secs n (suc n) bs (omega arith) (omega arith) t.1) in
    omega arith

-- A free name, or else all were taken.
abbrev pub Free : List (Text × Text) → Option Text → Type 0
Free bs o = (name : Text) × (o ≡ some name) × (has_backup name bs ≡ false)

tried-Free :
    (b : Bool) (name : Text) (bs : List (Text × Text)) (o : Option Text) (T : Type 0)
    → has_backup name bs ≡ b
    → Free bs o ⊎ T
    → Free bs (elim b [ false ↦ some name | true ↦ o ]) ⊎ ((has_backup name bs ≡ true) × T)
tried-Free false name bs o T k h = inl (name, refl, k)
tried-Free true name bs o T k (inl f) = inl f
tried-Free true name bs o T k (inr t) = inr (k, t)

free_from-Free :
    (fuel secs n : ℕ) (bs : List (Text × Text))
    → Free bs (free_from fuel secs n bs) ⊎ Taken fuel secs n bs
unfolding free_from
free_from-Free zero secs n bs = inr tt
free_from-Free (suc fuel) secs n bs =
    tried-Free (has_backup (numbered_name secs n) bs) (numbered_name secs n) bs
      (free_from fuel secs (suc n) bs) (Taken fuel secs (suc n) bs) refl
      (free_from-Free fuel secs (suc n) bs)

first-Free :
    (b : Bool) (name : Text) (bs : List (Text × Text)) (o : Option Text)
    → has_backup name bs ≡ b
    → Free bs o
    → Free bs (if b then o else some name)
first-Free false name bs o k h = (name, refl, k)
first-Free true name bs o k h = h

numbered-Free :
    (secs : ℕ) (bs : List (Text × Text))
    → length bs < 4294967293
    → Free bs (free_from (suc (length bs)) secs 2 bs)
numbered-Free secs bs h = elim (free_from-Free (suc (length bs)) secs 2 bs) [
  | inl f ↦ f
  | inr t ↦
      absurd (let most = Taken-length (suc (length bs)) secs 2 bs (omega arith) t in omega arith)
]

-- A name that no backup has is found within one number more than there are backups, for fewer
-- backups than there are numbers.
pub next_backup_path-Free :
    (secs : ℕ) (bs : List (Text × Text))
    → length bs < 4294967293
    → Free bs (next_backup_path secs bs)
unfolding next_backup_path
next_backup_path-Free secs bs h =
    first-Free (has_backup (first_name secs) bs) (first_name secs) bs _ refl
      (numbered-Free secs bs h)
