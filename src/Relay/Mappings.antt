-- ===== src/Relay/Mappings.antt =====
-- The proxy mappings (relay/relay.go): `UpdateProxyMapping`, `UpdateDestinationInMappings`, and
-- one round of `cleanupIdleProxyMappings`. Times are nanoseconds.
pub mod Updates
use gerbil.Prelude.{
  ℕ, suc, ◌+◌, ◌*◌, Bool, true, false, ◌&&◌, ◌||◌, Option, none, some, List, [], ◌∷◌, if◌then◌else◌,
  ltb, Text, text_eq, text_beq, ℤ, eqℤ,
}
use gerbil.Table.{Table, load, store, delete_if}
use gerbil.Relay.Address.{ip_port_key}

pub record PeerDestination : Type 0 where
  pub destination_ip : Text
  pub destination_port : ℤ

pub record ProxyMapping : Type 0 where
  pub destinations : List PeerDestination
  pub last_used : ℕ

abbrev pub Mappings : Type 0
Mappings = Table Text ProxyMapping

unfoldable pub update_proxy_mapping : Mappings → Text → ℤ → List PeerDestination → ℕ → Mappings
update_proxy_mapping m source_ip source_port destinations now =
    store (ip_port_key source_ip source_port)
      (record { destinations = destinations; last_used = now }) m

abbrev pub same_destination : PeerDestination → PeerDestination → Bool
same_destination a b =
    text_beq a.destination_ip b.destination_ip && eqℤ a.destination_port b.destination_port

-- The loop over the destinations of a mapping, and its flag.
pub replace_destinations :
    PeerDestination → PeerDestination → List PeerDestination → List PeerDestination
replace_destinations old new [] = []
replace_destinations old new (d ∷ ds) =
    (if same_destination d old then new else d) ∷ replace_destinations old new ds

pub mentions : PeerDestination → List PeerDestination → Bool
mentions old [] = false
mentions old (d ∷ ds) = same_destination d old || mentions old ds

-- The Range over the mappings, and how many were updated.
pub update_destination_in_mappings : PeerDestination → PeerDestination → ℕ → Mappings → Mappings × ℕ
unfolding replace_destinations mentions
update_destination_in_mappings old new now [] = ([], 0)
update_destination_in_mappings old new now ((key, mapping) ∷ m) =
    let (m', count) = update_destination_in_mappings old new now m in
    if mentions old mapping.destinations
    then (
      (
        key,
        record {
          destinations = replace_destinations old new mapping.destinations;
          last_used = now;
        },
      )
          ∷ m',
      suc count,
    )
    else ((key, mapping) ∷ m', count)

-- now.Sub(mapping.LastUsed) > 30*time.Minute
pub cleanup_idle_proxy_mappings : Mappings → ℕ → Mappings
cleanup_idle_proxy_mappings m now =
    delete_if (λ key mapping. ltb (mapping.last_used + 30 * 60000000000) now) m
