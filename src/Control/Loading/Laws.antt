-- ===== src/Control/Loading/Laws.antt =====
-- The private key of main.go stays the same from one start to the next.
use gerbil.Prelude.{
  ℕ, ◌%◌, ◌≡◌, inl, inr, refl, sym, ap, ◌∙◌, true, Option, none, some, if◌then◌else◌, ◌==◌, ==_iff,
  Text, Bool-cases, Option-cases, subst,
}
use gerbil.Control.Loading.{
  KeyFile, KeyWorld, load_or_generate_private_key, save_key, parsed_contents, owner_only,
}

-- A file that neither the group nor others may use.
abbrev pub IsPrivate : KeyFile → Type 0
IsPrivate KeyFile.absent = ⊥
IsPrivate KeyFile.closed = ⊥
IsPrivate (KeyFile.file mode contents) = mode % 64 ≡ 0

-- A new key is stored with its printed text.
save_key-stored :
    {K : Type 0} (now : KeyWorld K) (o : Option K) (after : KeyFile) (key : K)
    → save_key now o ≡ (after, some key)
    → after ≡ KeyFile.file owner_only (some (now.print_key key))
unfolding save_key
save_key-stored now none after key e = cc
save_key-stored now (some k) after key e = elim (Bool-cases now.creates) [
  | inr failed ↦ absurd (cc (rw failed at e))
  | inl creates ↦ elim (Option-cases now.breaks_off) [
    | inr (part, failed) ↦ absurd (cc (rw (creates, failed) at e))
    | inl writes ↦ elim (Bool-cases now.closes) [
      | inr failed ↦ absurd (cc (rw (creates, writes, failed) at e))
      | inl closes ↦ cc (rw (creates, writes, closes) at e)
    ]
  ]
]

reload :
    {K : Type 0} (world : KeyWorld K) (mode : ℕ) (contents : Option Text) (key : K)
    → (mode % 64 == 0) ≡ true
    → parsed_contents world contents ≡ some key
    → load_or_generate_private_key world (KeyFile.file mode contents)
      ≡ (KeyFile.file mode contents, some key)
unfolding load_or_generate_private_key
reload world mode contents key tight parsed =
    ap
      (λ b.
        if b
        then (KeyFile.file mode contents, parsed_contents world contents)
        else (KeyFile.file mode contents, none))
      tight
    ∙ ap (λ o. (KeyFile.file mode contents, o)) parsed

parsed_contents-same :
    {K : Type 0} (now later : KeyWorld K) (contents : Option Text)
    → later.parse_key ≡ now.parse_key
    → parsed_contents later contents ≡ parsed_contents now contents
unfolding parsed_contents
parsed_contents-same now later none same = refl
parsed_contents-same now later (some text) same = ap (λ f. f text) same

-- Where loadOrGeneratePrivateKey returns a key, the file is private to its owner, and the next
-- start finds the same key, whatever then can be generated or written, if a printed key is parsed
-- back.
pub load_or_generate_private_key_again :
    {K : Type 0} (now later : KeyWorld K) (before after : KeyFile) (key : K)
    → ((k : K) → now.parse_key (now.print_key k) ≡ some k)
    → later.parse_key ≡ now.parse_key
    → load_or_generate_private_key now before ≡ (after, some key)
    → IsPrivate after × (load_or_generate_private_key later after ≡ (after, some key))
unfolding load_or_generate_private_key save_key parsed_contents
load_or_generate_private_key_again now later KeyFile.absent after key printed same loaded =
    let stored = save_key-stored now now.generate after key loaded in
    subst (λ f. IsPrivate f × (load_or_generate_private_key later f ≡ (f, some key))) (sym stored)
      (
        refl,
        reload later owner_only (some (now.print_key key)) key refl
            (ap (λ f. f (now.print_key key)) same ∙ printed key),
      )
load_or_generate_private_key_again now later KeyFile.closed after key printed same loaded = cc
load_or_generate_private_key_again now later (KeyFile.file mode contents) after key printed same
      loaded =
    elim (Bool-cases (mode % 64 == 0)) [
      | inl tight ↦
          let found : (KeyFile.file mode contents, parsed_contents now contents)
              ≡ (after, some key) =
            rw tight at loaded in
          subst (λ f. IsPrivate f × (load_or_generate_private_key later f ≡ (f, some key)))
            (ap (λ x. x.0) found)
            (
              (==_iff (mode % 64) 0).0 tight,
              reload later mode contents key tight
                  (parsed_contents-same now later contents same ∙ ap (λ x. x.1) found),
            )
      | inr loose ↦ absurd (cc (rw loose at loaded))
    ]
