-- ===== src/Privilege.antt =====
-- privilege.rs: the argv of the one privileged write.
pub mod Reading
use wine_vr.Prelude.{
  ℕ, Bool, true, false, ◌||◌, ◌==◌, List, [], ◌∷◌, ◌++◌, codes, Text, if◌then◌else◌,
}

abbrev pub osascript : Text
osascript = codes "/usr/bin/osascript"

abbrev pub sudo : Text
sudo = codes "/usr/bin/sudo"

abbrev pub mkdir : Text
mkdir = codes "/bin/mkdir"

abbrev pub install : Text
install = codes "/usr/bin/install"

pub data AdminMethod : Type 0 where
  osascript_dialog sudo_prompt : AdminMethod

-- `AdminMethod::choose`
unfoldable pub choose : Bool → Bool → AdminMethod
choose stdin_is_tty controlling_tty =
    if stdin_is_tty || controlling_tty then sudo_prompt else osascript_dialog

abbrev pub escape_char : ℕ → Text
escape_char c =
    if c == b'\\'
    then codes "\\\\"
    else if c == b'"'
    then codes "\\\""
    else if c == b'\n'
    then codes "\\n"
    else if c == b'\r'
    then codes "\\r"
    else if c == b'\t'
    then codes "\\t"
    else c ∷ []

unfoldable pub applescript_escape : Text → Text
applescript_escape [] = []
applescript_escape (c ∷ s) = escape_char c ++ applescript_escape s

abbrev pub quote_char : ℕ → Text
quote_char c = if c == b'\'' then codes "'\\''" else c ∷ []

unfoldable pub quote_body : Text → Text
quote_body [] = []
quote_body (c ∷ s) = quote_char c ++ quote_body s

unfoldable pub shell_quote : Text → Text
shell_quote s = b'\'' ∷ (quote_body s ++ b'\'' ∷ [])

-- A path is its bytes, and `lossy` is what `to_string_lossy` makes of them, in UTF-8. `dir` is the
-- parent of `dest`, or the root.
unfoldable pub privileged_install_command : (Text → Text) → Text → Text → Text → Text
privileged_install_command lossy dir tmp dest =
    mkdir
    ++ (codes " -p "
        ++ (shell_quote (lossy dir)
            ++ (codes " && "
                ++ (install
                    ++ (codes " -m 0644 -o root -g wheel "
                        ++ (shell_quote (lossy tmp) ++ (b' ' ∷ shell_quote (lossy dest))))))))

unfoldable pub do_shell_script : Text → Text
do_shell_script command =
    codes "do shell script \""
    ++ (applescript_escape command ++ codes "\" with administrator privileges")

abbrev pub mkdir_argv : Text → List Text
mkdir_argv dir = mkdir ∷ codes "-p" ∷ dir ∷ []

abbrev pub install_argv : Text → Text → List Text
install_argv tmp dest =
    install
    ∷ codes "-m"
    ∷ codes "0644"
    ∷ codes "-o"
    ∷ codes "root"
    ∷ codes "-g"
    ∷ codes "wheel"
    ∷ tmp
    ∷ dest
    ∷ []

-- The children of the elevation, in order.
unfoldable pub elevation_argv : (Text → Text) → AdminMethod → Text → Text → Text → List (List Text)
elevation_argv lossy osascript_dialog dir tmp dest =
    (osascript ∷ codes "-e" ∷ do_shell_script (privileged_install_command lossy dir tmp dest) ∷ [])
    ∷ []
elevation_argv lossy sudo_prompt dir tmp dest =
    (sudo ∷ mkdir_argv dir) ∷ (sudo ∷ install_argv tmp dest) ∷ []
