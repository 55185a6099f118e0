-- ===== src/Relay/Mappings/Updates.antt =====
-- What the updates of relay/relay.go do to the mapping of a client, and where the lookup of
-- `handleWireGuardPacket` finds it.
use gerbil.Prelude.{
  ◌+◌, ◌*◌, ltb, ℕ, ◌≡◌, refl, true, false, Option, none, some, List, [], ◌∷◌, arith, if◌then◌else◌,
  Text, text_eq, text_beq_iff, pos, Bool-cases, inl, inr,
}
use gerbil.Table.{load, count_if, load-store, unless, IsMap, load-delete_if}
use gerbil.Relay.Address.{UdpAddr, addr_string, contains_byte, ip_port_key}
use gerbil.Relay.Keys.{ip_port_key-addr_string}
use gerbil.Relay.Mappings.{
  PeerDestination, ProxyMapping, Mappings, same_destination, replace_destinations, mentions,
  update_proxy_mapping, update_destination_in_mappings, cleanup_idle_proxy_mappings,
}

-- The mapping of a client, with the old destination replaced wherever it stands.
abbrev updated : PeerDestination → PeerDestination → ℕ → ProxyMapping → ProxyMapping
updated old new now mapping =
    if mentions old mapping.destinations
    then record {
      destinations = replace_destinations old new mapping.destinations;
      last_used = now;
    }
    else mapping

abbrev map_option {ℓ} : {A : Type ℓ} → (A → A) → Option A → Option A
map_option f none = none
map_option f (some a) = some (f a)

-- UpdateDestinationInMappings changes, in every mapping that holds the old destination, each
-- occurrence of it and the time of use, changes no other mapping, and returns the number of the
-- mappings changed.
update_destination_in_mappings_lem :
    (old new : PeerDestination) (now : ℕ) (m : Mappings)
    → ((key : Text)
        → load key (update_destination_in_mappings old new now m).0
          ≡ map_option (updated old new now) (load key m))
      × ((update_destination_in_mappings old new now m).1
          ≡ count_if (λ key mapping. mentions old mapping.destinations) m)
unfolding update_destination_in_mappings load count_if
update_destination_in_mappings_lem old new now [] = ((λ key. refl), refl)
update_destination_in_mappings_lem old new now ((k, v) ∷ m) =
    let (loads, counts) = update_destination_in_mappings_lem old new now m in
    ((λ key. ground (arith, loads key)), ground (arith, counts))

mentions-replace :
    (old new : PeerDestination) (ds : List PeerDestination)
    → same_destination new old ≡ false
    → mentions old (replace_destinations old new ds) ≡ false
unfolding mentions replace_destinations
mentions-replace old new [] h = refl
mentions-replace old new (d ∷ ds) h = ground (arith, mentions-replace old new ds h)

-- If the new destination differs from the old, a second UpdateDestinationInMappings of the same
-- old destination changes nothing and returns 0.
update_destination_twice :
    (old new third : PeerDestination) (now later : ℕ) (m : Mappings)
    → same_destination new old ≡ false
    → let m' = (update_destination_in_mappings old new now m).0 in
      update_destination_in_mappings old third later m' ≡ (m', 0)
unfolding update_destination_in_mappings
update_destination_twice old new third now later [] h = refl
update_destination_twice old new third now later ((k, v) ∷ m) h =
    elim (Bool-cases (mentions old v.destinations)) [
      | inl hit ↦
          rw
            (
              hit,
              update_destination_in_mappings,
              mentions-replace old new v.destinations h,
              update_destination_twice old new third now later m h,
            )
            refl
      | inr miss ↦
          rw
            (
              miss,
              update_destination_in_mappings,
              miss,
              update_destination_twice old new third now later m h,
            )
            refl
    ]

-- The mapping of an IPv4 client is found under the address that its packets come from.
pub load-update_proxy_mapping :
    (m : Mappings) (a : UdpAddr) (destinations : List PeerDestination) (now : ℕ)
    → contains_byte b':' a.ip ≡ false
    → load (addr_string a) (update_proxy_mapping m a.ip (pos a.port) destinations now)
      ≡ some (record { destinations = destinations; last_used = now })
unfolding update_proxy_mapping
load-update_proxy_mapping m a destinations now v4 = rw ((ip_port_key-addr_string a).1 v4) (
    ground (
      arith,
      load-store (addr_string a) (addr_string a)
          (record { destinations = destinations; last_used = now }) m,
      text_beq_iff (addr_string a) (addr_string a),
    ))

-- The mapping of an IPv6 client is stored where no packet of it is looked up.
pub load-update_proxy_mapping_v6 :
    (m : Mappings) (a : UdpAddr) (destinations : List PeerDestination) (now : ℕ)
    → contains_byte b':' a.ip ≡ true
    → load (addr_string a) (update_proxy_mapping m a.ip (pos a.port) destinations now)
      ≡ load (addr_string a) m
unfolding update_proxy_mapping
load-update_proxy_mapping_v6 m a destinations now v6 = ground (
  arith,
  load-store (ip_port_key a.ip (pos a.port)) (addr_string a)
      (record { destinations = destinations; last_used = now }) m,
  text_beq_iff (ip_port_key a.ip (pos a.port)) (addr_string a),
  (ip_port_key-addr_string a).0,
)

-- The cleanup takes out exactly the mappings that were not used for more than thirty minutes.
load-cleanup_idle_proxy_mappings :
    (m : Mappings) (now : ℕ) (key : Text)
    → IsMap m
    → load key (cleanup_idle_proxy_mappings m now)
      ≡ unless (λ mapping. ltb (mapping.last_used + 30 * 60000000000) now) (load key m)
unfolding cleanup_idle_proxy_mappings
load-cleanup_idle_proxy_mappings m now key distinct =
    load-delete_if (λ k mapping. ltb (mapping.last_used + 30 * 60000000000) now) key m distinct
