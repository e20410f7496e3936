-- ===== src/Tests/Streams.antt =====
-- Two lines, the first ended by CR LF, and a repaint between them.
use wine_vr.Prelude.{ℕ, ◌≡◌, List, [], ◌∷◌, ◌++◌}
use wine_vr.Host.Splitter.{new_splitter, push_with}
use wine_vr.Host.Splitter.Lossless.{run, crlf_to_lf, splitter-lossless, push_with-append}

abbrev stream : List ℕ
stream = 97 ∷ 13 ∷ 10 ∷ 98 ∷ 13 ∷ 99 ∷ 10 ∷ 100 ∷ []

splitter-lossless_example : run stream new_splitter ≡ crlf_to_lf stream
splitter-lossless_example = splitter-lossless stream

-- The cut is between the CR and the LF.
push_with-append_example : push_with ((97 ∷ 13 ∷ []) ++ (10 ∷ 98 ∷ [])) new_splitter ≡ (
  (push_with (97 ∷ 13 ∷ []) new_splitter).0
      ++ (push_with (10 ∷ 98 ∷ []) (push_with (97 ∷ 13 ∷ []) new_splitter).1).0,
  (push_with (10 ∷ 98 ∷ []) (push_with (97 ∷ 13 ∷ []) new_splitter).1).1,
)
push_with-append_example = push_with-append (97 ∷ 13 ∷ []) (10 ∷ 98 ∷ []) new_splitter
