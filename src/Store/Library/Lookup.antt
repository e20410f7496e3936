-- ===== src/Store/Library/Lookup.antt =====
-- The library as a map from ids to games.
use wine_vr.Prelude.{
  ℕ, ◌≡◌, refl, ap, ◌∙◌, not, Option, none, some, List, [], ◌∷◌, ◌==◌, find, retain, arith, ==_refl,
  false, if◌then◌else◌,
}
use mathlib.Core.Option.{map as option_map}
use wine_vr.Store.Library.{
  LastSession, GameEntry, Library, get, put, upsert, remove, merge_over, upsert_editable,
  with_last_session, change_first, record_last_session,
}

abbrev pub find_id : ℕ → List GameEntry → Option GameEntry
find_id id games = find (λ (g : GameEntry). g.id == id) games

pub find_id-put :
    (id : ℕ) (e : GameEntry) (games : List GameEntry)
    → find_id id (put e games) ≡ (if e.id == id then some e else find_id id games)
unfolding put
find_id-put id e [] = refl
find_id-put id e (g ∷ games) = let h = find_id-put id e games in ground arith

pub merge_over-id : (o : Option GameEntry) (e : GameEntry) → (merge_over o e).id ≡ e.id
merge_over-id none e = refl
merge_over-id (some g) e = refl

get-upsert_editable_merged :
    (id : ℕ) (incoming : GameEntry) (lib : Library)
    → get id (upsert_editable incoming lib)
      ≡ (if incoming.id == id then some (merge_over (get incoming.id lib) incoming) else get id lib)
unfolding get upsert_editable upsert
get-upsert_editable_merged id incoming lib =
    find_id-put id (merge_over (get incoming.id lib) incoming) lib.games
    ∙ ap
        (λ k.
          if k == id
          then some (merge_over (get incoming.id lib) incoming)
          else find_id id lib.games)
        (merge_over-id (get incoming.id lib) incoming)

get_merged :
    (incoming : GameEntry) (lib : Library) (o : Option GameEntry)
    → get incoming.id lib ≡ o
    → get incoming.id (upsert_editable incoming lib) ≡ some (merge_over o incoming)
get_merged incoming lib o e =
    get-upsert_editable_merged incoming.id incoming lib
    ∙ ground (arith, ==_refl incoming.id)
    ∙ ap (λ k. some (merge_over k incoming)) e

-- After an edit of a game that was there, its id finds the edited game, with the session that it had
-- last, its appid and the time when it was added as they were; after an edit of a game that was not
-- there, its id finds that game as it is; and every other id finds what it found.
pub get-upsert_editable :
    (incoming : GameEntry) (lib : Library)
    → ((old : GameEntry)
        → get incoming.id lib ≡ some old
        → get incoming.id (upsert_editable incoming lib)
          ≡ some (record {
            id = incoming.id;
            name = incoming.name;
            bs_dir = incoming.bs_dir;
            bottle = incoming.bottle;
            appid = old.appid;
            added_at_unix_ms = old.added_at_unix_ms;
            launch_overrides = incoming.launch_overrides;
            last_session = old.last_session;
          }))
      × (get incoming.id lib ≡ none
          → get incoming.id (upsert_editable incoming lib) ≡ some incoming)
      × ((id : ℕ)
          → (incoming.id == id) ≡ false
          → get id (upsert_editable incoming lib) ≡ get id lib)
get-upsert_editable incoming lib = (
  λ old there. get_merged incoming lib (some old) there,
  λ gone. get_merged incoming lib none gone,
  λ id other. get-upsert_editable_merged id incoming lib ∙ rw other refl,
)

pub find_id-retain :
    (id gone : ℕ) (games : List GameEntry)
    → find_id id (retain (λ (g : GameEntry). not (g.id == gone)) games)
      ≡ (if gone == id then none else find_id id games)
find_id-retain id gone [] = ground arith
find_id-retain id gone (g ∷ games) = let h = find_id-retain id gone games in ground arith

pub find_id-change_first :
    (id key : ℕ) (s : LastSession) (games : List GameEntry)
    → find_id id (change_first key (with_last_session s) games).1 ≡ (
        if key == id then option_map (with_last_session s) (find_id id games) else find_id id games)
unfolding change_first
find_id-change_first id key s [] = ground arith
find_id-change_first id key s (g ∷ games) =
    let h = find_id-change_first id key s games in ground arith

-- After a removal no game has the id, and every other game is found as before.
pub get-remove :
    (id gone : ℕ) (lib : Library)
    → get id (remove gone lib).1 ≡ (if gone == id then none else get id lib)
unfolding get remove
get-remove id gone lib = find_id-retain id gone lib.games

-- The session is found with its game, where there is one, and every other game is as before.
pub get-record_last_session :
    (id key : ℕ) (s : LastSession) (lib : Library)
    → get id (record_last_session key s lib).1
      ≡ (if key == id then option_map (with_last_session s) (get id lib) else get id lib)
unfolding get record_last_session
get-record_last_session id key s lib = find_id-change_first id key s lib.games
