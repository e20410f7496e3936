-- ===== src/Host/Error.antt =====
-- error.rs, and the texts that the modelled code prints or raises.
use wine_vr.Prelude.{ℕ, String, Bool, true, false, Option, List, Text}
use wine_vr.Host.Phase.{SessionPhase}

mutual
  -- What a formatted text says: the constructor stands for the format string, its arguments for
  -- the holes in it.
  pub data Message : Type 0 where
    -- session/state.rs
    owned_elsewhere : String → ℕ → String → Message
    newer_schema : String → ℕ → Message
    -- session/reconcile.rs
    state_unreadable : Message
    delete_record_hint : Message
    record_in_flight : Message
    owned_elsewhere_row : ℕ → Message
    newer_schema_row : ℕ → Message
    wine_unidentified : ℕ → Message
    wine_still_alive : ℕ → Message
    reconcile_failed : SabrageError → Message
    reconcile_retry_hint : Message
    audio_row : Bool → String → Message
    audio_fallback_row : Bool → String → String → Message
    dashboard_row : Bool → Message
    forward_row : Bool → ℕ → String → Message
    record_kept : Message
    -- session/mod.rs
    audio_fallback_line : Bool → String → String → Message
    audio_unrestorable_line : String → Message
    supervising : String → ℕ → Message
    launch_in_progress : String → SessionPhase → Message
    still_running : String → ℕ → Message
    owner_running : ℕ → String → Message
    record_cannot_be_read : Message
    runtime_reporting : String → Message
    game_is_running : ℕ → Message
    refusing_while_live : String → Message → Message
    -- store/library.rs
    newer_library : ℕ → Message
    -- stages/run/guards.rs
    audio_disabled : Message
    blackhole_not_present : Message
    blackhole_switch_failed : Message
    audio_switched : String → Message
    audio_restored_text : String → Message
    dashboard_opening dashboard_closed_text dashboard_disabled dashboard_not_built : Message
    -- stages/run/mod.rs
    already_running : ℕ → ℕ → String → Message
    -- stages/run/actions.rs
    wired_needs_adb wired_no_quest : Message
    wired_forward_failed : ℕ → String → Message
    wired_forwards_up : List ℕ → String → Message
    reverse_cleared : String → Message
    steam_api_missing : Text → Message
    backup_not_regular : Text → Message
    backup_failed goldberg_failed appid_failed : Message
    backup_is_goldberg : Text → Message
    goldberg_already_installed : Message
    goldberg_installed : Text → Message
    -- store/goldberg.rs
    revert_refused : Message → Message
    game_has_dll : ℕ → Message
    no_backup backup_itself_goldberg restored_from : Text → Message
    -- fixes/adb.rs
    forwards_unlisted : Message → List Text → Message
    adb_answer : String → Message
    forward_uncleared : Text → String → Message
    forward_cleared : Bool → Text → String → Message
    refusing_over_record : Message → String → Message
    -- config/runtime_toml.rs
    ignored_values : List (Text × Text × Text) → Message
    not_valid_toml : String → Message
    refusing_rewrite : Message → Message
    string_content : Text → Message
    unseen_line : Text → Message
    lost_table : Text → Message
    live_config : Message → Option String → Message
    changed_on_disk : Message

  pub data SabrageError : Type 0 where
    fatal : Message → Option String → SabrageError
    invalid_input : Message → SabrageError
    io : String → SabrageError
    child_failed : String → ℕ → SabrageError
    cancelled : SabrageError
    download : String → SabrageError
    hash_mismatch : String → String → SabrageError
    admin_declined : SabrageError
    tcc_denied : String → SabrageError

unfoldable pub exit_code : SabrageError → ℕ
exit_code (SabrageError.invalid_input _) = 2
exit_code SabrageError.cancelled = 130
exit_code _ = 1

unfoldable pub already_reported : SabrageError → Bool
already_reported (SabrageError.fatal _ _) = true
already_reported (SabrageError.tcc_denied _) = true
already_reported SabrageError.admin_declined = true
already_reported SabrageError.cancelled = true
already_reported _ = false

pub data Result {ℓ} (A : Type ℓ) : Type ℓ where
  ok : A → Result A
  err : SabrageError → Result A

-- The `?` operator.
abbrev pub and_then {ℓ κ} : {A : Type ℓ} {B : Type κ} → Result A → (A → Result B) → Result B
and_then (ok a) f = f a
and_then (err e) f = err e
