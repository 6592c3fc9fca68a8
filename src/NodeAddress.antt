-- ===== src/NodeAddress.antt =====
-- ManagedNodeAddress.js under src/: host and port. The pattern that takes a text apart, and the
-- text of a port, are not modelled; the constructor refuses a missing port, so there is always one.
use hedera_sdk_js.Common.{
  ℕ, String, Bool, ◌||◌, ◌&&◌, ◌==◌, str_eq, if◌then◌else◌, ◌≡◌, ◌↔◌, arith, eq_iff, true,
}

pub record Address : Type 0 where
  pub host : String
  pub port : ℕ

unfoldable pub address_to_insecure : Address → Address
address_to_insecure a = record a { port = if a.port == 50212 then 50211 else a.port }

unfoldable pub address_to_secure : Address → Address
address_to_secure a = record a { port = if a.port == 50211 then 50212 else a.port }

unfoldable pub is_transport_security : Address → Bool
is_transport_security a = a.port == 50212 || a.port == 443

-- Two addresses have the same text.
abbrev pub address_eq : Address → Address → Bool
address_eq a b = str_eq a.host b.host && a.port == b.port

pub address_eq_iff : (a b : Address) → (address_eq a b ≡ true) ↔ (a ≡ b)
address_eq_iff a b = ground (arith, eq_iff a.host b.host)
