-- ===== src/WebDav/Request/Tokens.antt =====
-- The words that `strtok_r` finds in a text of words and delimiters.
use rapi_bootloader.Base.{ℕ, ◌≡◌, refl, ◌∙◌, Bool, true, false, List, [], ◌∷◌, ◌++◌, All, Bytes}
use rapi_bootloader.WebDav.Request.{tokens, in_token, extend_token}

module _ (is_delimiter : ℕ → Bool) where
  abbrev pub IsWord : Bytes → Type 0
  IsWord t = All (λ c. is_delimiter c ≡ false) t

  pub tokens_skip :
      (d : ℕ) (rest : Bytes)
      → is_delimiter d ≡ true
      → tokens is_delimiter (d ∷ rest) ≡ tokens is_delimiter rest
  unfolding tokens
  tokens_skip d rest h = rw h refl

  tokens_start :
      (c d : ℕ) (rest : Bytes)
      → is_delimiter c ≡ false
      → is_delimiter d ≡ true
      → tokens is_delimiter (c ∷ d ∷ rest) ≡ (c ∷ []) ∷ tokens is_delimiter rest
  unfolding tokens in_token extend_token
  tokens_start c d rest h k = rw (h, k) refl

  tokens_word :
      (c : ℕ) (cs : Bytes)
      → is_delimiter c ≡ false
      → tokens is_delimiter (c ∷ cs)
        ≡ extend_token (in_token is_delimiter cs) c (tokens is_delimiter cs)
  unfolding tokens
  tokens_word c cs h = rw h refl

  tokens_longer :
      (c c' : ℕ) (rest t : Bytes) (ts : List Bytes)
      → is_delimiter c ≡ false
      → is_delimiter c' ≡ false
      → tokens is_delimiter (c' ∷ rest) ≡ t ∷ ts
      → tokens is_delimiter (c ∷ c' ∷ rest) ≡ (c ∷ t) ∷ ts
  unfolding in_token extend_token
  tokens_longer c c' rest t ts h k e = tokens_word c (c' ∷ rest) h ∙ rw (k, e) refl

  -- A word that a delimiter ends.
  pub tokens-append :
      (c : ℕ) (t : Bytes) (d : ℕ) (rest : Bytes)
      → IsWord (c ∷ t)
      → is_delimiter d ≡ true
      → tokens is_delimiter ((c ∷ t) ++ d ∷ rest) ≡ (c ∷ t) ∷ tokens is_delimiter rest
  tokens-append c [] d rest h k = tokens_start c d rest h.0 k
  tokens-append c (c' ∷ t) d rest h k =
      tokens_longer c c' (t ++ d ∷ rest) (c' ∷ t) _ h.0 h.1.0 (tokens-append c' t d rest h.1 k)

  -- A word that ends the text.
  pub tokens_last :
      (c : ℕ) (t : Bytes) → IsWord (c ∷ t) → tokens is_delimiter (c ∷ t) ≡ (c ∷ t) ∷ []
  unfolding tokens in_token extend_token
  tokens_last c [] h = rw h.0 refl
  tokens_last c (c' ∷ t) h = tokens_longer c c' t (c' ∷ t) [] h.0 h.1.0 (tokens_last c' t h.1)
