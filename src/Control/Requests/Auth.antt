-- ===== src/Control/Requests/Auth.antt =====
-- Which requests `requireControlAuth` of main.go lets through.
use gerbil.Prelude.{
  ◌≤◌, ◌≡◌, ◌↔◌, refl, true, false, not, ◌&&◌, [], ◌∷◌, ◌++◌, arith, if◌then◌else◌, leb, leb→le,
  Text, text_beq, text_beq_iff, codes, take, length, length-take-le, take_of_length-le, Bool-cases,
  Option-cases, inl, inr, ap, sym, subst,
}
use gerbil.Strings.{cut, has_byte, equal_fold}
use gerbil.Strings.Laws.{cut-append, cut-some}
use gerbil.Control.Requests.{max_token_len, is_authorized}

-- What stands before the first space is the scheme, and the token is the control token: its first
-- 1024 bytes are, if it is longer.
abbrev pub HasToken : Text → Text → Type 0
HasToken control_api_token header =
    (scheme : Text) × (token : Text) × (header ≡ scheme ++ b' ' ∷ token)
    × (has_byte b' ' scheme ≡ false)
    × (equal_fold scheme (codes "Bearer") ≡ true)
    × (take max_token_len token ≡ control_api_token)

-- No text of the length that is hashed but the control token has its hash.
abbrev NoCollision : (Text → Text) → Text → Type 0
NoCollision sum256 control_api_token =
    (t : Text)
    → length t ≤ max_token_len
    → sum256 t ≡ sum256 control_api_token
    → t ≡ control_api_token

cut_token :
    (token : Text)
    → (if leb (length token) max_token_len then token else take max_token_len token)
      ≡ take max_token_len token
cut_token token = elim (Bool-cases (leb (length token) max_token_len)) [
  | inl short ↦
      rw short
        (sym (take_of_length-le max_token_len token (leb→le (length token) max_token_len short)))
  | inr long ↦ rw long refl
]

module _ (sum256 : Text → Text) (control_api_token : Text)
    (long_enough : 32 ≤ length control_api_token)
    (no_collision : NoCollision sum256 control_api_token) where
  accepted_token :
      (token : Text)
      → (not (text_beq (take max_token_len token) [])
          && text_beq (sum256 (take max_token_len token)) (sum256 control_api_token))
        ≡ true
      → take max_token_len token ≡ control_api_token
  accepted_token token h =
      no_collision (take max_token_len token) (length-take-le max_token_len token) (
        (text_beq_iff (sum256 (take max_token_len token)) (sum256 control_api_token)).0
          (ground (arith, h)))

  token_accepted :
      (token : Text)
      → token ≡ control_api_token
      → (not (text_beq token []) && text_beq (sum256 token) (sum256 control_api_token)) ≡ true
  token_accepted [] e = absurd (omega (arith, long_enough, ap length e))
  token_accepted (c ∷ t) e =
      (text_beq_iff (sum256 (c ∷ t)) (sum256 control_api_token)).1 (ap sum256 e)

  authorized-HasToken :
      (header : Text)
      → is_authorized sum256 control_api_token header ≡ true
      → HasToken control_api_token header
  unfolding is_authorized
  authorized-HasToken header h = elim (Option-cases (cut header (b' ' ∷ []))) [
    | inl missing ↦ absurd (ground (arith, missing))
    | inr ((scheme, token), found) ↦
        let (e, free) = cut-some b' ' header scheme token found in
        let test : (equal_fold scheme (codes "Bearer")
              && (not (text_beq (take max_token_len token) [])
                  && text_beq (sum256 (take max_token_len token)) (sum256 control_api_token)))
            ≡ true =
          subst
            (λ t.
              (equal_fold scheme (codes "Bearer")
                && (not (text_beq t []) && text_beq (sum256 t) (sum256 control_api_token)))
              ≡ true)
            (cut_token token) (rw found at h) in
        (scheme, token, e, free, ground (arith, test), accepted_token token (ground (arith, test)))
  ]

  HasToken-authorized :
      (header : Text)
      → HasToken control_api_token header
      → is_authorized sum256 control_api_token header ≡ true
  unfolding is_authorized
  HasToken-authorized header (scheme, token, e, free, bearer, same) =
      rw (e, cut-append b' ' scheme token free, bearer, cut_token token)
        (token_accepted (take max_token_len token) same)

  -- For a control token of at least 32 bytes whose hash no other text of at most 1024 bytes has,
  -- requireControlAuth lets a request through if and only if the header is a scheme that reads
  -- Bearer in any case, a space, and a token whose first 1024 bytes are the control token.
  pub is_authorized_iff :
      (header : Text)
      → (is_authorized sum256 control_api_token header ≡ true) ↔ HasToken control_api_token header
  is_authorized_iff header = (authorized-HasToken header, HasToken-authorized header)
