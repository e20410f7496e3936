-- ===== src/Privilege/Reading.antt =====
-- What AppleScript and /bin/sh make of the dialog's command.
use mathlib.Core.List.{append_assoc, append-nil}
use wine_vr.Prelude.{
  ◌≡◌, refl, sym, ap, ◌∙◌, ℕ, Bool, true, false, ◌&&◌, ◌||◌, ◌==◌, leb, Option, none, some, List,
  [], ◌∷◌, ◌++◌, codes, Text, if◌then◌else◌, arith,
}
use wine_vr.Privilege.{
  osascript, sudo, mkdir, install, osascript_dialog, sudo_prompt, elevation_argv,
  applescript_escape, quote_body, shell_quote, privileged_install_command, do_shell_script,
  mkdir_argv, install_argv,
}

-- An AppleScript text from behind its opening quote: its value, and what follows its closing quote.
abbrev pub unescaped : ℕ → Option ℕ
unescaped c =
    if c == b'\\' || c == b'"'
    then some c
    else if c == b'n'
    then some b'\n'
    else if c == b'r'
    then some b'\r'
    else if c == b't'
    then some b'\t'
    else none

abbrev pub push : ℕ → Option (Text × Text) → Option (Text × Text)
push c none = none
push c (some (s, rest)) = some (c ∷ s, rest)

abbrev pub push_if : Option ℕ → Option (Text × Text) → Option (Text × Text)
push_if none o = none
push_if (some c) o = push c o

-- `escaped` says that a backslash came before.
pub script_text : Bool → Text → Option (Text × Text)
script_text escaped [] = none
script_text true (c ∷ s) = push_if (unescaped c) (script_text false s)
script_text false (c ∷ s) = elim (c == b'"') [
  | true ↦ some ([], s)
  | false ↦ elim (c == b'\\') [ true ↦ script_text true s | false ↦ push c (script_text false s) ]
]

-- Where /bin/sh is in a line.
pub data Lexing : Type 0 where
  plain quoted escaped : Lexing

-- The characters that mean themselves outside of quotes; `&` is the operator's, which is a word here.
abbrev pub is_word : ℕ → Bool
is_word c =
    (leb b'a' c && leb c b'z') || (leb b'0' c && leb c b'9') || c == b'/' || c == b'-' || c == b'&'

abbrev pub word : Text → Option (List Text) → Option (List Text)
word w none = none
word w (some ws) = some (w ∷ ws)

abbrev pub line_end : Lexing → Text → Bool → Option (List Text)
line_end plain cur true = some (cur ∷ [])
line_end plain cur false = some []
line_end _ cur begun = none

-- The words of a line, after the part `cur` of one that has begun; a line with any other character
-- outside of quotes is not read.
pub sh_words : Lexing → Text → Bool → Text → Option (List Text)
sh_words m cur begun [] = line_end m cur begun
sh_words plain cur begun (c ∷ s) = elim (c == b' ') [
  | true ↦ elim begun [
    | true ↦ word cur (sh_words plain [] false s)
    | false ↦ sh_words plain [] false s
  ]
  | false ↦ elim (c == b'\'') [
    | true ↦ sh_words quoted cur true s
    | false ↦ elim (c == b'\\') [
      | true ↦ sh_words escaped cur true s
      | false ↦ elim (is_word c) [ true ↦ sh_words plain (cur ++ c ∷ []) true s | false ↦ none ]
    ]
  ]
]
sh_words quoted cur begun (c ∷ s) = elim (c == b'\'') [
  | true ↦ sh_words plain cur true s
  | false ↦ sh_words quoted (cur ++ c ∷ []) true s
]
sh_words escaped cur begun (c ∷ s) = sh_words plain (cur ++ c ∷ []) true s

-- An escaped text is read back.
script_text-escape :
    (s rest : Text) → script_text false (applescript_escape s ++ b'"' ∷ rest) ≡ some (s, rest)
unfolding script_text applescript_escape
script_text-escape [] rest = refl
script_text-escape (c ∷ s) rest = ground (arith, script_text-escape s rest)

-- A quoted word is read as it was.
sh_words-quote_body :
    (cur s rest : Text) (begun : Bool)
    → sh_words quoted cur begun (quote_body s ++ b'\'' ∷ rest) ≡ sh_words plain (cur ++ s) true rest
unfolding sh_words quote_body
sh_words-quote_body cur [] rest begun = rw (append-nil cur) refl
sh_words-quote_body cur (c ∷ s) rest begun =
    ground (arith, sh_words-quote_body (cur ++ c ∷ []) s rest true, append_assoc cur (c ∷ []) s)

sh_words-shell_quote :
    (s rest : Text) → sh_words plain [] false (shell_quote s ++ rest) ≡ sh_words plain s true rest
unfolding shell_quote sh_words
sh_words-shell_quote s rest =
    ap (sh_words quoted [] true) (append_assoc (quote_body s) (b'\'' ∷ []) rest)
    ∙ sh_words-quote_body [] s rest true

-- The three parts of the command, from its end.
last_word : (dest : Text) → sh_words plain [] false (shell_quote dest) ≡ some (dest ∷ [])
unfolding sh_words
last_word dest =
    ap (sh_words plain [] false) (sym (append-nil (shell_quote dest)))
    ∙ sh_words-shell_quote dest []

install_words :
    (tmp dest : Text)
    → sh_words plain [] false (
        install
        ++ (codes " -m 0644 -o root -g wheel " ++ (shell_quote tmp ++ (b' ' ∷ shell_quote dest))))
      ≡ some (install_argv tmp dest)
unfolding sh_words
install_words tmp dest =
    ap (λ o. before_tmp o)
      (sh_words-shell_quote tmp (b' ' ∷ shell_quote dest) ∙ ap (word tmp) (last_word dest))
  where
    before_tmp : Option (List Text) → Option (List Text)
    before_tmp o = word install (
        word (codes "-m") (
          word (codes "0644")
            (word (codes "-o") (word (codes "root") (word (codes "-g") (word (codes "wheel") o))))))

-- The two constant parts of the command.
mkdir_words :
    (rest : Text)
    → sh_words plain [] false (mkdir ++ (codes " -p " ++ rest))
      ≡ word mkdir (word (codes "-p") (sh_words plain [] false rest))
unfolding sh_words
mkdir_words rest = refl

and_words :
    (dir rest : Text)
    → sh_words plain dir true (codes " && " ++ rest)
      ≡ word dir (word (codes "&&") (sh_words plain [] false rest))
unfolding sh_words
and_words dir rest = refl

command_words :
    (dir tmp dest : Text)
    → sh_words plain [] false (
        mkdir
        ++ (codes " -p "
            ++ (shell_quote dir
                ++ (codes " && "
                    ++ (install
                        ++ (codes " -m 0644 -o root -g wheel "
                            ++ (shell_quote tmp ++ (b' ' ∷ shell_quote dest))))))))
      ≡ some (mkdir_argv dir ++ codes "&&" ∷ install_argv tmp dest)
command_words dir tmp dest =
    mkdir_words (shell_quote dir ++ (codes " && " ++ install_line))
    ∙ ap (λ o. word mkdir (word (codes "-p") o))
        (sh_words-shell_quote dir (codes " && " ++ install_line)
          ∙ and_words dir install_line
          ∙ ap (λ o. word dir (word (codes "&&") o)) (install_words tmp dest))
  where
    install_line : Text
    install_line =
        install
        ++ (codes " -m 0644 -o root -g wheel " ++ (shell_quote tmp ++ (b' ' ∷ shell_quote dest)))

install_command_words :
    (lossy : Text → Text) (dir tmp dest : Text)
    → lossy dir ≡ dir
    → lossy tmp ≡ tmp
    → lossy dest ≡ dest
    → sh_words plain [] false (privileged_install_command lossy dir tmp dest)
      ≡ some (mkdir_argv dir ++ codes "&&" ∷ install_argv tmp dest)
unfolding privileged_install_command
install_command_words lossy dir tmp dest d t e =
    command_words (lossy dir) (lossy tmp) (lossy dest)
    ∙ ap (λ x. some (mkdir_argv x ++ codes "&&" ∷ install_argv (lossy tmp) (lossy dest))) d
    ∙ ap (λ x. some (mkdir_argv dir ++ codes "&&" ∷ install_argv x (lossy dest))) t
    ∙ ap (λ x. some (mkdir_argv dir ++ codes "&&" ∷ install_argv tmp x)) e

-- The argument that the dialog's method hands to osascript, for paths that are UTF-8, whatever quotes,
-- spaces or other characters they hold (`lossy`, the standard library's `to_string_lossy`, gives back
-- such a path as it is): it is `do shell script`, an AppleScript text, and `with administrator
-- privileges`; the text's value is the command that was meant; and /bin/sh reads that command as the
-- two argvs that the sudo method runs, less their `sudo`, joined by `&&`: each path is one word, as
-- it is.
pub do_shell_script-reads :
    (lossy : Text → Text) (dir tmp dest : Text)
    → lossy dir ≡ dir
    → lossy tmp ≡ tmp
    → lossy dest ≡ dest
    → (rest : Text) × (elevation_argv lossy osascript_dialog dir tmp dest
        ≡ (osascript ∷ codes "-e" ∷ (codes "do shell script \"" ++ rest) ∷ []) ∷ [])
      × (script_text false rest
          ≡ some (
            privileged_install_command lossy dir tmp dest,
            codes " with administrator privileges",
          ))
      × (a : List Text) × (b : List Text) × (elevation_argv lossy sudo_prompt dir tmp dest
          ≡ (sudo ∷ a) ∷ (sudo ∷ b) ∷ [])
      × (sh_words plain [] false (privileged_install_command lossy dir tmp dest)
          ≡ some (a ++ codes "&&" ∷ b))
unfolding elevation_argv do_shell_script
do_shell_script-reads lossy dir tmp dest d t e = (
  applescript_escape (privileged_install_command lossy dir tmp dest)
      ++ codes "\" with administrator privileges",
  refl,
  script_text-escape (privileged_install_command lossy dir tmp dest)
      (codes " with administrator privileges"),
  mkdir_argv dir,
  install_argv tmp dest,
  refl,
  install_command_words lossy dir tmp dest d t e,
)
