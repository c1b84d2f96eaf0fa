-- ===== src/Cli/Parse/Tokens.antt =====
-- `tokenize` and the case of commands (src/cli/fincore_cli.cpp).
use fin_core_streaming_syste.Prelude.{
  ℕ, ◌≡◌, ◌≢◌, refl, ap, ap, ◌∙◌, false, List, [], ◌∷◌, ◌++◌, append_assoc, append-nil, All, Text,
  if◌then◌else◌,
}
use fin_core_streaming_syste.Cli.Parse.{is_space, read_tokens, tokenize}

abbrev pub IsWord : Text → Type 0
IsWord w = (w ≢ []) × All (λ c. is_space c ≡ false) w

-- Words with one blank behind each.
abbrev pub write_words : List Text → Text
write_words [] = []
write_words (w ∷ ws) = w ++ (b' ' ∷ write_words ws)

read_tokens-word :
    (w line : Text) (c : ℕ) (word : Text)
    → All (λ c. is_space c ≡ false) w
    → read_tokens (w ++ line) (c ∷ word) ≡ read_tokens line ((c ∷ word) ++ w)
unfolding read_tokens
read_tokens-word [] line c word h = rw append-nil
read_tokens-word (d ∷ w) line c word (h, hs) =
    rw (h, read_tokens)
      (read_tokens-word w line c (word ++ (d ∷ [])) hs
        ∙ ap (λ t. read_tokens line (c ∷ t)) (append_assoc word (d ∷ []) w))

read_tokens-first :
    (c : ℕ) (s : Text) → is_space c ≡ false → read_tokens (c ∷ s) [] ≡ read_tokens s (c ∷ [])
unfolding read_tokens
read_tokens-first c s h = rw (h, if◌then◌else◌)

-- Reading words that are written with blanks between them gives the words back.
tokenize-write_words : (ws : List Text) → All IsWord ws → tokenize (write_words ws) ≡ ws
unfolding tokenize
tokenize-write_words [] h = refl
tokenize-write_words ([] ∷ ws) (h, hs) = absurd (h.0 refl)
tokenize-write_words ((c ∷ w) ∷ ws) (h, hs) =
    read_tokens-first c (w ++ (b' ' ∷ write_words ws)) h.1.0
    ∙ (read_tokens-word w (b' ' ∷ write_words ws) c [] h.1.1
        ∙ ap (λ t. (c ∷ w) ∷ t) (tokenize-write_words ws hs))
