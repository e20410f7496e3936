-- ===== src/Store/Library/Unique.antt =====
-- No two games of a library have the same id.
use wine_vr.Prelude.{
  ℕ, ◌≡◌, refl, ◌≤◌, not, none, List, [], ◌∷◌, ◌==◌, retain, length, is_some, arith,
}
use wine_vr.Store.Library.{
  LastSession, GameEntry, Library, get, put, upsert, remove, merge_over, upsert_editable,
  with_last_session, change_first, record_last_session,
}
use wine_vr.Store.Library.Lookup.{find_id, find_id-put, find_id-retain, find_id-change_first}

abbrev pub UniqueIds : List GameEntry → Type 0
UniqueIds [] = Unit
UniqueIds (g ∷ games) = (find_id g.id games ≡ none) × UniqueIds games

put-UniqueIds : (e : GameEntry) (games : List GameEntry) → UniqueIds games → UniqueIds (put e games)
unfolding put
put-UniqueIds e [] u = (refl, tt)
put-UniqueIds e (g ∷ games) u =
    let found = find_id-put g.id e games in let rest = put-UniqueIds e games u.1 in ground arith

retain-UniqueIds :
    (id : ℕ) (games : List GameEntry)
    → UniqueIds games
    → UniqueIds (retain (λ (g : GameEntry). not (g.id == id)) games)
retain-UniqueIds id [] u = tt
retain-UniqueIds id (g ∷ games) u =
    let found = find_id-retain g.id id games in
    let rest = retain-UniqueIds id games u.1 in ground arith

change_first-UniqueIds :
    (id : ℕ) (s : LastSession) (games : List GameEntry)
    → UniqueIds games
    → UniqueIds (change_first id (with_last_session s) games).1
unfolding change_first
change_first-UniqueIds id s [] u = tt
change_first-UniqueIds id s (g ∷ games) u =
    let found = find_id-change_first g.id id s games in
    let rest = change_first-UniqueIds id s games u.1 in ground arith

-- Ids stay unique through an edit, a removal and the end of a session.
pub edits-UniqueIds :
    (lib : Library) (incoming : GameEntry) (id : ℕ) (s : LastSession)
    → UniqueIds lib.games
    → UniqueIds (upsert_editable incoming lib).games
      × UniqueIds (remove id lib).1.games
      × UniqueIds (record_last_session id s lib).1.games
unfolding upsert_editable upsert remove record_last_session
edits-UniqueIds lib incoming id s u = (
  put-UniqueIds (merge_over (get incoming.id lib) incoming) lib.games u,
  retain-UniqueIds id lib.games u,
  change_first-UniqueIds id s lib.games u,
)

retain-shorter :
    (id : ℕ) (games : List GameEntry)
    → length (retain (λ (g : GameEntry). not (g.id == id)) games) ≤ length games
retain-shorter id [] = ground arith
retain-shorter id (g ∷ games) = let h = retain-shorter id games in ground arith

retain-changes :
    (id : ℕ) (games : List GameEntry)
    → not (length (retain (λ (g : GameEntry). not (g.id == id)) games) == length games)
      ≡ is_some (find_id id games)
retain-changes id [] = refl
retain-changes id (g ∷ games) =
    let h = retain-changes id games in let k = retain-shorter id games in ground arith

change_first-found :
    (id : ℕ) (s : LastSession) (games : List GameEntry)
    → (change_first id (with_last_session s) games).0 ≡ is_some (find_id id games)
unfolding change_first
change_first-found id s [] = refl
change_first-found id s (g ∷ games) = let h = change_first-found id s games in ground arith

-- A removal and the end of a session report whether the game was there.
pub edits-found :
    (lib : Library) (id : ℕ) (s : LastSession)
    → ((remove id lib).0 ≡ is_some (get id lib))
      × ((record_last_session id s lib).0 ≡ is_some (get id lib))
unfolding remove record_last_session get
edits-found lib id s = (retain-changes id lib.games, change_first-found id s lib.games)
