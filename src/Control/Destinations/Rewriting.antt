-- ===== src/Control/Destinations/Rewriting.antt =====
-- What `handleRouter` of main.go sends on.
use gerbil.Prelude.{
  ◌≡◌, ◌≢◌, ◌⊎◌, true, not, ◌&&◌, ◌||◌, none, some, [], ◌∷◌, arith, Text, text_eq, text_beq,
  text_beq_iff, codes, ℤ, pos, lebℤ, ◌≤ℤ◌, atoi, Bool-cases, Option-cases, inl, inr, ◌∙◌, subst,
}
use gerbil.Strings.{split_host_port, starts_with}
use gerbil.Table.{load, delete, load-delete}
use gerbil.Control.Destinations.{
  split_dest_header, is_port, is_address, validate_router_destination, pangolin_dest_header,
  pangolin_host_header, max_router_request_body_bytes, RouterRequest, OutRequest, RouterResult,
  get_header, rewrite_path, rewrite, handle_router,
}

-- The destination is a host and a port of TCP under http or https.
abbrev IsDestination : Text → Text → Type 0
IsDestination scheme hostport =
    ((scheme ≡ codes "http") ⊎ (scheme ≡ codes "https"))
    × ((host : Text) × (port_text : Text) × (port : ℤ) × (split_host_port hostport
          ≡ some (host, port_text))
        × (host ≢ [])
        × (atoi port_text ≡ some port)
        × (pos 1 ≤ℤ port)
        × (port ≤ℤ pos 65535))

is_address-cases :
    (hostport : Text)
    → is_address (split_host_port hostport) ≡ true
    → (host : Text) × (port_text : Text) × (port : ℤ) × (split_host_port hostport
        ≡ some (host, port_text))
      × (host ≢ [])
      × (atoi port_text ≡ some port)
      × (pos 1 ≤ℤ port)
      × (port ≤ℤ pos 65535)
unfolding is_address is_port
is_address-cases hostport h = elim (Option-cases (split_host_port hostport)) [
  | inl bad ↦ absurd (ground (arith, h, bad))
  | inr ((host, port_text), good) ↦ elim (Option-cases (atoi port_text)) [
    | inl bad ↦ absurd (ground (arith, h, good, bad))
    | inr (port, number) ↦
        let test : (not (text_beq host []) && (lebℤ (pos 1) port && lebℤ port (pos 65535))) ≡ true =
          rw (good, number) at h in
        (
          host,
          port_text,
          port,
          good,
          (λ e. ground (arith, test, (text_beq_iff host []).1 e)),
          number,
          ground (arith, test),
          ground (arith, test),
        )
  ]
]

valid-IsDestination :
    (dest : Text)
    → validate_router_destination dest ≡ true
    → IsDestination (split_dest_header dest).0 (split_dest_header dest).1
unfolding validate_router_destination
valid-IsDestination dest h =
    let (scheme, hostport) = split_dest_header dest in
    (scheme_of scheme (ground (arith, h)), is_address-cases hostport (ground (arith, h)))
  where
    scheme_of :
        (scheme : Text)
        → (text_beq scheme (codes "http") || text_beq scheme (codes "https")) ≡ true
        → (scheme ≡ codes "http") ⊎ (scheme ≡ codes "https")
    scheme_of scheme e = elim (Bool-cases (text_beq scheme (codes "http"))) [
      | inl http ↦ inl ((text_beq_iff scheme (codes "http")).0 http)
      | inr other ↦ inr ((text_beq_iff scheme (codes "https")).0 (ground (arith, e, other)))
    ]

rewrite_path-rooted : (path : Text) → starts_with (b'/' ∷ []) (rewrite_path path) ≡ true
unfolding rewrite_path starts_with
rewrite_path-rooted path = ground arith

headers-removed :
    (r : RouterRequest)
    → (load pangolin_dest_header (rewrite r).headers ≡ none)
      × (load pangolin_host_header (rewrite r).headers ≡ none)
unfolding rewrite
headers-removed r = (
  load-delete pangolin_host_header pangolin_dest_header (delete pangolin_dest_header r.headers)
      ∙ load-delete pangolin_dest_header pangolin_dest_header r.headers,
  load-delete pangolin_host_header pangolin_host_header (delete pangolin_dest_header r.headers),
)

-- What may be sent on of a request.
abbrev pub IsSafe : RouterRequest → OutRequest → Type 0
IsSafe r out =
    IsDestination out.scheme out.url_host
    × (starts_with (b'/' ∷ []) out.path ≡ true)
    × (load pangolin_dest_header out.headers ≡ none)
    × (load pangolin_host_header out.headers ≡ none)
    × (r.content_length ≤ℤ pos max_router_request_body_bytes)

rewrite-IsSafe :
    (r : RouterRequest)
    → validate_router_destination (get_header pangolin_dest_header r.headers) ≡ true
    → r.content_length ≤ℤ pos max_router_request_body_bytes
    → IsSafe r (rewrite r)
unfolding rewrite
rewrite-IsSafe r valid small =
    let (first, second) = headers-removed r in
    (
      valid-IsDestination (get_header pangolin_dest_header r.headers) valid,
      rewrite_path-rooted r.path,
      first,
      second,
      small,
    )

-- Whatever handleRouter sends on goes under http or https to a host that is not empty and a port
-- from 1 to 65535, with a path that starts with a slash, without the two routing headers, and of
-- a declared length of at most 32 MiB.
pub handle_router_lem :
    (r : RouterRequest) (out : OutRequest)
    → handle_router r ≡ RouterResult.forwarded out
    → IsSafe r out
unfolding handle_router
handle_router_lem r out h =
    let dest = get_header pangolin_dest_header r.headers in
    elim (Bool-cases (text_beq dest [])) [
      | inl missing ↦ absurd (ground (arith, missing, h))
      | inr given ↦ elim (Bool-cases (validate_router_destination dest)) [
        | inr bad ↦ absurd (ground (arith, given, bad, h))
        | inl valid ↦
            elim (Bool-cases (lebℤ r.content_length (pos max_router_request_body_bytes))) [
              | inr large ↦ absurd (ground (arith, given, valid, large, h))
              | inl small ↦
                  let e : rewrite r ≡ out = ground (arith, given, valid, small, h) in
                  subst (IsSafe r) e (rewrite-IsSafe r valid (ground (arith, small)))
            ]
      ]
    ]
