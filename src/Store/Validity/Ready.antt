-- ===== src/Store/Validity/Ready.antt =====
-- What the status of a game says about the rows of its problems.
use wine_vr.Prelude.{
  ◌≡◌, refl, sym, ap, ◌∙◌, String, Bool, true, false, not, ◌&&◌, ◌||◌, Option, List, [], ◌∷◌, ◌++◌,
  is_some_and, str_eq, unwrap_or, arith,
}
use wine_vr.Store.Validity.{
  GameStatus, ready, Problem, wrong_template, wrong_backend, no_z_drive, dll_missing, GameProbe,
  is_no_dll, z_drive_bad, row_if, exe_problems, bottle_problems, game_status, detected_version_of,
  version_supported, bottle_found, template_of, backend_is_dxmt, z_drive, goldberg_of,
  validate_pinned,
}

-- The rows that a launch repairs by itself or that do not stop it.
abbrev pub is_advice : Problem → Bool
is_advice (wrong_template _) = true
is_advice wrong_backend = true
is_advice _ = false

abbrev pub all_advice : List Problem → Bool
all_advice [] = true
all_advice (r ∷ rows) = is_advice r && all_advice rows

abbrev pub is_ready : GameStatus → Bool
is_ready ready = true
is_ready _ = false

all_advice-append : (a b : List Problem) → all_advice (a ++ b) ≡ (all_advice a && all_advice b)
all_advice-append [] b = refl
all_advice-append (r ∷ rows) b = let h = all_advice-append rows b in ground arith

all_advice-row : (b : Bool) (r : Problem) → all_advice (row_if b r) ≡ (not b || is_advice r)
all_advice-row b r = ground arith

exe-advice : (exe ok : Bool) (d : Option String) → all_advice (exe_problems exe ok d) ≡ (exe && ok)
unfolding exe_problems
exe-advice exe ok d = ground arith

bottle-advice :
    (exists : Bool) (t : Option String) (dxmt : Bool)
    → all_advice (bottle_problems exists t dxmt) ≡ exists
unfolding bottle_problems
bottle-advice false t dxmt = refl
bottle-advice true t dxmt =
    let template =
      row_if (not (is_some_and t (λ x. str_eq x "win11_64"))) (wrong_template (unwrap_or t "")) in
    let h = all_advice-append template (row_if (not dxmt) wrong_backend) in
    let k =
      all_advice-row (not (is_some_and t (λ x. str_eq x "win11_64")))
        (wrong_template (unwrap_or t "")) in
    let l = all_advice-row (not dxmt) wrong_backend in ground arith

status-ready :
    (exe bottle ok z d : Bool)
    → is_ready (game_status exe bottle ok z d) ≡ (exe && ok && bottle && not z && not d)
unfolding game_status
status-ready exe bottle ok z d = ground arith

rows-advice : (a z d : Bool) → (a && (not z || false) && (not d || false)) ≡ (a && not z && not d)
rows-advice a z d = ground arith

advice-status :
    (exe bottle ok z d : Bool) (e b : List Problem)
    → all_advice e ≡ (exe && ok)
    → all_advice b ≡ bottle
    → is_ready (game_status exe bottle ok z d)
      ≡ all_advice (e ++ b ++ row_if z no_z_drive ++ row_if d dll_missing)
advice-status exe bottle ok z d e b he hb =
    let zs = row_if z no_z_drive in
    let ds = row_if d dll_missing in
    let split =
      all_advice-append (e ++ b ++ zs) ds
      ∙ ap (λ x. x && all_advice ds)
          (all_advice-append (e ++ b) zs ∙ ap (λ x. x && all_advice zs) (all_advice-append e b)) in
    status-ready exe bottle ok z d
    ∙ sym (
        split
        ∙ rw (he, hb, all_advice-row z no_z_drive, all_advice-row d dll_missing)
            (rows-advice (exe && ok && bottle) z d))

-- A game is shown as ready exactly when every row of its problems is about the bottle's template or its
-- graphics backend, the two that do not stop a launch.
pub validate_pinned-ready :
    (p : GameProbe) → is_ready (validate_pinned p).status ≡ all_advice (validate_pinned p).problems
unfolding validate_pinned
validate_pinned-ready p =
    let e = exe_problems p.exe_present (version_supported p) (detected_version_of p) in
    let b = bottle_problems (bottle_found p) (template_of p) (backend_is_dxmt p) in
    let z = row_if (z_drive_bad (z_drive p)) no_z_drive in
    let d = row_if (is_no_dll (goldberg_of p)) dll_missing in
    advice-status p.exe_present (bottle_found p) (version_supported p) (z_drive_bad (z_drive p))
      (is_no_dll (goldberg_of p)) e b (exe-advice _ _ _) (bottle-advice _ _ _)
