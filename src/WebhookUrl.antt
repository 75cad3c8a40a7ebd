-- ===== src/WebhookUrl.antt =====
-- internal/webhookurl/guard.go: which addresses a webhook may be sent to, checked at connect time.
-- An address (`netip.Addr`) is its number of 32 or 128 bits, a version 6 one with its zone; a name is
-- its Unicode code points. `netip.ParseAddr` is a parameter. Texts of errors are left out.
pub mod Ranges
pub mod Dial
pub mod Hostnames
pub mod Policy
pub mod Access
pub mod Tailnet
pub mod Contained
pub mod Parsed
pub mod Validation
mod Examples
use cronlite.Base.{
  ℕ, ◌+◌, ◌-◌, ◌*◌, ◌/◌, ◌%◌, ◌^◌, String, Bool, true, false, not, ◌&&◌, ◌||◌, Option, none, some,
  List, [], ◌∷◌, ◌++◌, map, any, nat_beq, leb, ltb, ◌==◌, text_key, if◌then◌else◌,
}
use cronlite.Base.Texts.{to_lower}

pub data Addr : Type 0 where
  invalid : Addr
  v4 : ℕ → Addr
  v6 : ℕ → String → Addr

pub data Reason : Type 0 where
  invalid_address scoped unspecified loopback link_local multicast this_network : Reason
  carrier_grade_nat nat64_local_use ipv4_compatible private_address : Reason

-- `Prefix.Contains`: the address without its last `host_bits` bits is the prefix.
abbrev pub in_prefix : ℕ → ℕ → ℕ → Bool
in_prefix prefix host_bits n = nat_beq (n / 2 ^ host_bits) prefix

abbrev pub is_private4 : ℕ → Bool
is_private4 n =
    in_prefix 10 24 n || in_prefix (172 * 16 + 1) 20 n || in_prefix (192 * 256 + 168) 16 n

-- The switch of checkAddr and what follows it, at a version 4 address: the reason to refuse it.
unfoldable pub check_v4 : ℕ → Bool → Option Reason
check_v4 n allow_private =
    if nat_beq n 0
    then some unspecified
    else if in_prefix 127 24 n
    then some loopback
    else if in_prefix (169 * 256 + 254) 16 n
    then some link_local
    else if in_prefix 14 28 n
    then some multicast
    else if in_prefix 0 24 n
    then some this_network
    else if in_prefix (100 * 4 + 1) 22 n
    then some carrier_grade_nat
    else if is_private4 n && not allow_private
    then some private_address
    else none

-- 64:ff9b::/96 and ::ffff:0:0:0/96 without their last 32 bits, 64:ff9b:1::/48 without its last 80.
abbrev pub nat64_well_known : ℕ
nat64_well_known = 0x64ff9b * 2 ^ 64

abbrev pub ipv4_translated : ℕ
ipv4_translated = 0xffff0000

abbrev pub nat64_local : ℕ
nat64_local = 0x64ff9b0001

-- The same at a version 6 address.
unfoldable pub check_v6 : ℕ → Bool → Option Reason
check_v6 n allow_private =
    if nat_beq n 0
    then some unspecified
    else if nat_beq n 1
    then some loopback
    else if in_prefix 0x3fa 118 n
    then some link_local
    else if in_prefix 0xff 120 n
    then some multicast
    else if in_prefix nat64_local 80 n
    then some nat64_local_use
    else if in_prefix 0 32 n
    then some ipv4_compatible
    else if in_prefix 0x7e 121 n && not allow_private
    then some private_address
    else none

-- `Unmap`, of ::ffff:a.b.c.d, and the forms that embed an IPv4 address.
abbrev pub is_mapped : ℕ → Bool
is_mapped n = in_prefix 0xffff 32 n

abbrev pub embeds : ℕ → Bool
embeds n = in_prefix ipv4_translated 32 n || in_prefix nat64_well_known 32 n

unfoldable pub check_addr : Addr → Bool → Option Reason
check_addr invalid allow_private = some invalid_address
check_addr (v4 n) allow_private = check_v4 n allow_private
check_addr (v6 n zone) allow_private =
    if not (zone == "")
    then some scoped
    else if is_mapped n
    then check_v4 (n % 2 ^ 32) allow_private
    else if embeds n
    then check_v4 (n % 2 ^ 32) allow_private
    else check_v6 n allow_private

abbrev pub unmap : Addr → Addr
unmap (v6 n zone) = if is_mapped n then v4 (n % 2 ^ 32) else v6 n zone
unmap a = a

abbrev pub Name : Type 0
Name = List ℕ

pub record Allowlist : Type 0 where
  pub suffixes : List Name
  pub exact : List Name

unfoldable pub bytes_eq : Name → Name → Bool
bytes_eq [] [] = true
bytes_eq (a ∷ s) (b ∷ t) = nat_beq a b && bytes_eq s t
bytes_eq [] (b ∷ t) = false
bytes_eq (a ∷ s) [] = false

unfoldable pub has_suffix : Name → Name → Bool
has_suffix [] end = bytes_eq [] end
has_suffix (a ∷ s) end = bytes_eq (a ∷ s) end || has_suffix s end

unfoldable pub trim_dot : Name → Name
trim_dot [] = []
trim_dot (a ∷ []) = if nat_beq a b'.' then [] else a ∷ []
trim_dot (a ∷ b ∷ s) = a ∷ trim_dot (b ∷ s)

abbrev pub is_empty : Name → Bool
is_empty [] = true
is_empty (a ∷ s) = false

-- `ip_literal` is isIPLiteral.
unfoldable pub matches : (Name → Bool) → Allowlist → Name → Bool
matches ip_literal a host =
    let h = trim_dot (map to_lower host) in
    if is_empty h || ip_literal h
    then false
    else any (bytes_eq h) a.exact || any (λ s. bytes_eq h s || has_suffix h (b'.' ∷ s)) a.suffixes

pub data DialError : Type 0 where
  missing_host lookup_error no_addresses cancelled dial_failed : DialError
  blocked : Addr → Reason → DialError

-- What the guard asks the world: the parser of IP literals, the resolver (an address without its
-- bytes is invalid), and per dialled address whether the context ended before and whether the dial
-- succeeds.
pub record World : Type 0 where
  pub parse_addr : Name → Option Addr
  pub ip_literal : Name → Bool
  pub lookup_ip : Name → Option (List Addr)
  pub ended : ℕ → Bool
  pub connects : Addr → Bool

-- The addresses handed to the dialer, in order, and the error of a connection that was not made.
pub record DialResult : Type 0 where
  pub dialled : List Addr
  pub error : Option DialError

abbrev pub refused : DialError → DialResult
refused e = record { dialled = []; error = some e }

-- The loop that checks all the addresses: the reason of the first bad one, or all of them unmapped.
pub data Checked : Type 0 where
  bad : Addr → Reason → Checked
  good : List Addr → Checked

abbrev pub add_checked : Addr → Option Reason → Checked → Checked
add_checked a (some reason) rest = bad a reason
add_checked a none (bad b reason) = bad b reason
add_checked a none (good more) = good (unmap a ∷ more)

unfoldable pub check_all : Bool → List Addr → Checked
check_all allow_private [] = good []
check_all allow_private (a ∷ more) =
    add_checked a (check_addr a allow_private) (check_all allow_private more)

abbrev pub first_error : Option DialError → DialError → Option DialError
first_error none e = some e
first_error (some f) e = some f

-- The loop that dials the checked addresses until one connects.
unfoldable pub dial_each : World → ℕ → Option DialError → List Addr → DialResult
dial_each w i err [] = record { dialled = []; error = err }
dial_each w i err (a ∷ more) =
    let rest = dial_each w (i + 1) (first_error err dial_failed) more in
    if w.ended i
    then record { dialled = []; error = first_error err cancelled }
    else if w.connects a
    then record { dialled = a ∷ []; error = none }
    else record rest { dialled = a ∷ rest.dialled }

abbrev pub dial_one : World → Addr → DialResult
dial_one w a = record { dialled = a ∷ []; error = if w.connects a then none else some dial_failed }

abbrev pub dial_literal : World → Addr → Option Reason → DialResult
dial_literal w a (some reason) = refused (blocked a reason)
dial_literal w a none = dial_one w (unmap a)

abbrev pub dial_checked : World → Checked → DialResult
dial_checked w (bad a reason) = refused (blocked a reason)
dial_checked w (good more) = dial_each w 0 none more

abbrev pub dial_resolved : World → Bool → Option (List Addr) → DialResult
dial_resolved w allow_private none = refused lookup_error
dial_resolved w allow_private (some []) = refused no_addresses
dial_resolved w allow_private (some (a ∷ more)) =
    dial_checked w (check_all allow_private (a ∷ more))

abbrev pub dial_host : World → Allowlist → Name → Option Addr → DialResult
dial_host w allow host (some a) = dial_literal w a (check_addr a false)
dial_host w allow host none = dial_resolved w (matches w.ip_literal allow host) (w.lookup_ip host)

-- guardedDial, from the host of the split address on.
unfoldable pub guarded_dial : World → Allowlist → Name → DialResult
guarded_dial w allow host =
    if is_empty host then refused missing_host else dial_host w allow host (w.parse_addr host)
