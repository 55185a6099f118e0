-- ===== src/Proxy/Routes/Sticky.antt =====
-- `selectStickyEndpoint` of proxy/proxy.go stays within the endpoints.
use gerbil.Prelude.{
  ℕ, suc, zero, ◌%◌, ◌^◌, ◌<◌, ◌≡◌, refl, some, List, [], ◌∷◌, arith, Text, length, get_elem?,
}
use gerbil.Proxy.Routes.{select_sticky_endpoint, fnv_sum32, element}

get_elem-lt {ℓ} :
    {A : Type ℓ} (xs : List A) (i : ℕ) → i < length xs → (x : A) × (get_elem? xs i ≡ some x)
get_elem-lt [] i h = absurd (omega (arith, h))
get_elem-lt (x ∷ xs) zero h = (x, refl)
get_elem-lt (x ∷ xs) (suc i) h = get_elem-lt xs i (omega (arith, h))

-- For a list of one to 2^32 - 1 endpoints selectStickyEndpoint returns one of them.
pub select_sticky_endpoint_lem :
    (local_proxy_addr client_addr : Text) (endpoints : List Text)
    → 0 < length endpoints
    → length endpoints < 2 ^ 32
    → (i : ℕ) × (get_elem? endpoints i
        ≡ some (select_sticky_endpoint local_proxy_addr client_addr endpoints))
unfolding select_sticky_endpoint element
select_sticky_endpoint_lem local_proxy_addr client_addr [] pos small = absurd (omega (arith, pos))
select_sticky_endpoint_lem local_proxy_addr client_addr (e ∷ []) pos small = (0, refl)
select_sticky_endpoint_lem local_proxy_addr client_addr (e ∷ f ∷ es) pos small =
    let n = length (e ∷ f ∷ es) in
    let i = fnv_sum32 client_addr % (n % 2 ^ 32) in
    let (x, found) = get_elem-lt (e ∷ f ∷ es) i (omega (arith, small)) in (i, rw found refl)
