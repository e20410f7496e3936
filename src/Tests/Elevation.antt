-- ===== src/Tests/Elevation.antt =====
-- The install of a manifest under a path with a space and a quote.
use wine_vr.Prelude.{
  ◌≡◌, refl, map, ltb, if◌then◌else◌, some, codes, List, [], ◌∷◌, ◌++◌, Text, false,
}
use wine_vr.Privilege.{
  osascript, sudo, osascript_dialog, sudo_prompt, privileged_install_command, elevation_argv,
}
use wine_vr.Privilege.Reading.{plain, script_text, sh_words, do_shell_script-reads}

-- A byte that is no ASCII is replaced.
abbrev lossy : Text → Text
lossy s = map (λ c. if ltb c 128 then c else 63) s

abbrev dir : Text
dir = codes "/usr/local/it's here"

abbrev tmp : Text
tmp = codes "/tmp/a\\b"

abbrev dest : Text
dest = codes "/usr/local/it's here/openxr.json"

do_shell_script-reads_example :
    (rest : Text) × (elevation_argv lossy osascript_dialog dir tmp dest
      ≡ (osascript ∷ codes "-e" ∷ (codes "do shell script \"" ++ rest) ∷ []) ∷ [])
    × (script_text false rest
        ≡ some
            (privileged_install_command lossy dir tmp dest, codes " with administrator privileges"))
    × (a : List Text) × (b : List Text) × (elevation_argv lossy sudo_prompt dir tmp dest
        ≡ (sudo ∷ a) ∷ (sudo ∷ b) ∷ [])
    × (sh_words plain [] false (privileged_install_command lossy dir tmp dest)
        ≡ some (a ++ codes "&&" ∷ b))
do_shell_script-reads_example = do_shell_script-reads lossy dir tmp dest refl refl refl
