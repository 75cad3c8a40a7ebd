-- ===== src/WebhookUrl/Tailnet.antt =====
-- internal/webhookurl/tailnet.go: deliveries over the tailnet. `Tailnet` has the node's answers.
use cronlite.Base.{
  ℕ, ◌+◌, ◌*◌, ◌^◌, String, Bool, true, false, ◌&&◌, ◌||◌, not, Option, none, some, List, [], ◌∷◌,
  map, any, nat_beq, ◌==◌, text_key, if◌then◌else◌,
}
use cronlite.Base.Texts.{Text, is_nil, to_lower}
use cronlite.WebhookUrl.{
  Addr, invalid, v4, v6, unmap, in_prefix, Allowlist, World, DialResult, DialError, lookup_error,
  no_addresses, dial_each, guarded_dial,
}
use cronlite.WebhookUrl.Access.{tailnet_host, normal_suffix}

pub data TailnetReason : Type 0 where
  invalid_ip zoned service_address reserved not_tailnet own_address : TailnetReason

-- 100.100.100.100 and fd7a:115c:a1e0::53.
abbrev pub quad100 : ℕ
quad100 = 100 * 2 ^ 24 + 100 * 2 ^ 16 + 100 * 2 ^ 8 + 100

abbrev pub quad100v6 : ℕ
quad100v6 = 0xfd7a115ca1e0 * 2 ^ 80 + 0x53

abbrev pub is_service : Addr → Bool
is_service invalid = false
is_service (v4 n) = nat_beq n quad100
is_service (v6 n zone) = nat_beq n quad100v6

-- 100.115.92.0/23 and fd7a:115c:a1e0:b1a::/64.
abbrev pub is_reserved : Addr → Bool
is_reserved invalid = false
is_reserved (v4 n) = in_prefix (100 * 32768 + 115 * 128 + 46) 9 n
is_reserved (v6 n zone) = in_prefix 0xfd7a115ca1e00b1a 64 n

-- 100.64.0.0/10 and fd7a:115c:a1e0::/48.
abbrev pub is_node : Addr → Bool
is_node invalid = false
is_node (v4 n) = in_prefix (100 * 4 + 1) 22 n
is_node (v6 n zone) = in_prefix 0xfd7a115ca1e0 80 n

abbrev pub is_valid : Addr → Bool
is_valid invalid = false
is_valid a = true

abbrev pub zone_of : Addr → String
zone_of (v6 n zone) = zone
zone_of a = ""

abbrev pub same_addr : Addr → Addr → Bool
same_addr (v4 n) (v4 m) = nat_beq n m
same_addr (v6 n zone) (v6 m other) = nat_beq n m && zone == other
same_addr a b = false

-- The reason to refuse the address.
unfoldable pub check_tailnet_addr : Addr → List Addr → Option TailnetReason
unfolding any
check_tailnet_addr a self =
    let b = unmap a in
    if not (is_valid a)
    then some invalid_ip
    else if not (zone_of a == "")
    then some zoned
    else if is_service b
    then some service_address
    else if is_reserved b
    then some reserved
    else if not (is_node b)
    then some not_tailnet
    else if any (λ s. same_addr (unmap s) b) self
    then some own_address
    else none

-- What the node answers: its domain, its own addresses, the resolver, the dialer and the context.
pub record Tailnet : Type 0 where
  pub suffix : Text
  pub self_addrs : List Addr
  pub node : World

pub data TailnetChecked : Type 0 where
  off_limits : Addr → TailnetReason → TailnetChecked
  peers : List Addr → TailnetChecked

abbrev pub add_peer : Addr → Option TailnetReason → TailnetChecked → TailnetChecked
add_peer a (some reason) rest = off_limits a reason
add_peer a none (off_limits b reason) = off_limits b reason
add_peer a none (peers more) = peers (unmap a ∷ more)

unfoldable pub check_peers : List Addr → List Addr → TailnetChecked
unfolding check_tailnet_addr
check_peers self [] = peers []
check_peers self (a ∷ more) = add_peer a (check_tailnet_addr a self) (check_peers self more)

pub data TailnetError : Type 0 where
  tailnet_dial_error : DialError → TailnetError
  tailnet_blocked : Addr → TailnetReason → TailnetError

pub record TailnetResult : Type 0 where
  pub dialled : List Addr
  pub error : Option TailnetError

abbrev pub no_dial : TailnetError → TailnetResult
no_dial e = record { dialled = []; error = some e }

abbrev pub as_tailnet_error : Option DialError → Option TailnetError
as_tailnet_error none = none
as_tailnet_error (some e) = some (tailnet_dial_error e)

-- The loop over the checked addresses is that of guardedDial.
abbrev pub dial_peers : World → TailnetChecked → TailnetResult
unfolding dial_each
dial_peers w (off_limits a reason) = no_dial (tailnet_blocked a reason)
dial_peers w (peers more) =
    let r = dial_each w 0 none more in
    record { dialled = r.dialled; error = as_tailnet_error r.error }

abbrev pub tailnet_resolved : Tailnet → Option (List Addr) → TailnetResult
unfolding check_peers dial_each
tailnet_resolved tn none = no_dial (tailnet_dial_error lookup_error)
tailnet_resolved tn (some []) = no_dial (tailnet_dial_error no_addresses)
tailnet_resolved tn (some (a ∷ more)) = dial_peers tn.node (check_peers tn.self_addrs (a ∷ more))

unfoldable pub tailnet_dial : Tailnet → Text → TailnetResult
unfolding check_peers dial_each
tailnet_dial tn host = tailnet_resolved tn (tn.node.lookup_ip host)

-- Which dialer a host is given to.
pub data Routed : Type 0 where
  by_public : DialResult → Routed
  by_tailnet : TailnetResult → Routed

unfoldable pub routed_dial : World → Allowlist → Option Tailnet → Text → Routed
unfolding guarded_dial tailnet_dial cronlite.Base.Texts.trim_space
routed_dial w allow none host = by_public (guarded_dial w allow host)
routed_dial w allow (some tn) host =
    let suffix = normal_suffix tn.suffix in
    if is_nil suffix
    then by_public (guarded_dial w allow host)
    else (if tailnet_host w.ip_literal host suffix
        then by_tailnet (tailnet_dial tn host)
        else by_public (guarded_dial w allow host))
