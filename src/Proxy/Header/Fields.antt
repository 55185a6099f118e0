-- ===== src/Proxy/Header/Fields.antt =====
-- Splitting a header that was printed by proxy/proxy.go into its line and its words.
use gerbil.Prelude.{
  ◌≡◌, ◌≢◌, refl, false, some, List, [], ◌∷◌, ◌++◌, arith, ◌==◌, Text, All, Digits,
}
use gerbil.Proxy.Header.{is_space, push, split_words, fields, split_line, crlf}

-- A word: it is not empty, and holds no white space.
pub record IsWord (word : Text) : Type 0 where
  pub not_empty : word ≢ []
  pub plain : All (λ c. is_space c ≡ false) word

split_words-word :
    (word s : Text)
    → All (λ c. is_space c ≡ false) word
    → split_words (word ++ b' ' ∷ s) ≡ (word, fields s)
unfolding split_words fields
split_words-word [] s h = refl
split_words-word (c ∷ word) s h = rw (h.0, split_words-word word s h.1) refl

split_words-last :
    (word : Text) → All (λ c. is_space c ≡ false) word → split_words word ≡ (word, [])
unfolding split_words
split_words-last [] h = refl
split_words-last (c ∷ word) h = rw (h.0, split_words-last word h.1) refl

push-word : (word : Text) (words : List Text) → word ≢ [] → push word words ≡ word ∷ words
push-word [] words h = absurd (h refl)
push-word (c ∷ word) words h = refl

fields-word : (word s : Text) → IsWord word → fields (word ++ b' ' ∷ s) ≡ word ∷ fields s
unfolding fields
fields-word word s w = rw (split_words-word word s w.plain) (push-word word (fields s) w.not_empty)

fields-last : (word : Text) → IsWord word → fields word ≡ word ∷ []
unfolding fields
fields-last word w = rw (split_words-last word w.plain) (push-word word [] w.not_empty)

-- A text without CR.
abbrev NoCr : Text → Type 0
NoCr = All λ c. (c == 13) ≡ false

pub split_line-crlf :
    (line rest : Text) → NoCr line → split_line (line ++ (crlf ++ rest)) ≡ some (line, rest)
unfolding split_line
split_line-crlf [] rest h = refl
split_line-crlf (c ∷ []) rest h = rw h.0 refl
split_line-crlf (c ∷ d ∷ line) rest h = rw (h.0, split_line-crlf (d ∷ line) rest h.1) refl

pub Digits-plain : (s : Text) → Digits s → All (λ c. is_space c ≡ false) s
Digits-plain [] h = tt
Digits-plain (c ∷ s) h = (ground arith, Digits-plain s h.1)

NoCr-word : (s : Text) → All (λ c. is_space c ≡ false) s → NoCr s
NoCr-word [] h = tt
NoCr-word (c ∷ s) h = (ground arith, NoCr-word s h.1)

NoCr-append : (s t : Text) → NoCr s → NoCr t → NoCr (s ++ t)
NoCr-append [] t h k = k
NoCr-append (c ∷ s) t h k = (h.0, NoCr-append s t h.1 k)

NoCr-spaced : (word s : Text) → IsWord word → NoCr s → NoCr (word ++ b' ' ∷ s)
NoCr-spaced word s w h = NoCr-append word (b' ' ∷ s) (NoCr-word word w.plain) (refl, h)

module _ (a b c d e f : Text) (wa : IsWord a) (wb : IsWord b) (wc : IsWord c) (wd : IsWord d)
    (we : IsWord e) (wf : IsWord f) where
  pub fields-six :
      fields (a ++ (b' ' ∷ (b ++ (b' ' ∷ (c ++ (b' ' ∷ (d ++ (b' ' ∷ (e ++ (b' ' ∷ f))))))))))
      ≡ a ∷ b ∷ c ∷ d ∷ e ∷ f ∷ []
  fields-six =
      rw
        (
          fields-word a _ wa,
          fields-word b _ wb,
          fields-word c _ wc,
          fields-word d _ wd,
          fields-word e _ we,
          fields-last f wf,
        )
        refl

  pub six-NoCr :
      NoCr (a ++ (b' ' ∷ (b ++ (b' ' ∷ (c ++ (b' ' ∷ (d ++ (b' ' ∷ (e ++ (b' ' ∷ f))))))))))
  six-NoCr = NoCr-spaced a _ wa (
      NoCr-spaced b _ wb
        (NoCr-spaced c _ wc (NoCr-spaced d _ wd (NoCr-spaced e _ we (NoCr-word f wf.plain)))))
