-- ===== src/WebhookUrl/Examples.antt =====
-- The guard's theorems at concrete inputs.
use cronlite.Base.{
  ◌+◌, ◌*◌, ◌^◌, ◌≡◌, refl, ◌↔◌, ◌⊎◌, ◌≢◌, ◌||◌, true, false, not, Option, none, some, [], ◌∷◌,
  arith, All, any,
}
use cronlite.Base.Texts.{split_on, trim_space, trim_left, trim_right, same_text}
use cronlite.Dispatcher.Classify.{bytes}
use cronlite.WebhookUrl.{
  Addr, v4, v6, Allowlist, World, Name, check_addr, guarded_dial, matches, nat64_well_known,
  ipv4_translated,
}
use cronlite.WebhookUrl.Ranges.{
  in_ranges, never4, private4, dotted, check_v4-ranges, embedded_forms,
}
use cronlite.WebhookUrl.Policy.{TailnetPolicy, parse_tailnet_policy, parsed}
use cronlite.WebhookUrl.Access.{allows, hosts, normal, check}
use cronlite.WebhookUrl.Tailnet.{Tailnet, routed_dial}
use cronlite.WebhookUrl.Contained.{among, hosts-allows, Contained, delivery-Contained}
use cronlite.WebhookUrl.Validation.{is_forbidden_ip, forbidden_refused}
use cronlite.WebhookUrl.Dial.{Passes, private_ok, dial_safe}

abbrev internal : Allowlist
internal = record { suffixes = bytes "corp" ∷ []; exact = [] }

-- Every name resolves to a public and a private address.
abbrev split_horizon : World
split_horizon = record {
  parse_addr = λ host. none;
  ip_literal = λ host. false;
  lookup_ip = λ host. some (v4 (dotted 93 184 216 34) ∷ v4 (dotted 10 0 0 7) ∷ []);
  ended = λ i. false;
  connects = λ a. false;
}

check_v4-ranges_example : (check_addr (v4 (dotted 10 0 0 7)) true ≡ none) ↔ (
    (in_ranges never4 (dotted 10 0 0 7) ≡ false)
    × ((true ≡ true) ⊎ (in_ranges private4 (dotted 10 0 0 7) ≡ false)))
check_v4-ranges_example = check_v4-ranges (dotted 10 0 0 7) true

embedded_forms_example :
    (check_addr (v6 (0xffff * 2 ^ 32 + dotted 127 0 0 1) "") true
      ≡ check_addr (v4 (dotted 127 0 0 1)) true)
    × (check_addr (v6 (ipv4_translated * 2 ^ 32 + dotted 127 0 0 1) "") true
        ≡ check_addr (v4 (dotted 127 0 0 1)) true)
    × (check_addr (v6 (nat64_well_known * 2 ^ 32 + dotted 127 0 0 1) "") true
        ≡ check_addr (v4 (dotted 127 0 0 1)) true)
embedded_forms_example = embedded_forms (dotted 127 0 0 1) true (omega arith)

-- The allowlist covers the domain and its subdomains, on dot boundaries, in any case.
covered : matches (λ host. false) internal (bytes "API.Corp.") ≡ true
unfolding matches cronlite.WebhookUrl.trim_dot cronlite.WebhookUrl.bytes_eq
    cronlite.WebhookUrl.has_suffix any
covered = refl

dial_safe_example :
    All
      (Passes (private_ok split_horizon internal (bytes "a.corp") none))
      (guarded_dial split_horizon internal (bytes "a.corp")).dialled
dial_safe_example = dial_safe split_horizon internal (bytes "a.corp")

-- A policy of two entries, one for every namespace.
abbrev policy : TailnetPolicy
policy =
    (bytes "*", record { all = false; names = bytes "status" ∷ [] })
    ∷ (bytes "team", record { all = false; names = bytes "invoices" ∷ [] })
    ∷ []

abbrev node : Tailnet
node = record {
  suffix = bytes "example.ts.net";
  self_addrs = v4 (dotted 100 64 0 1) ∷ [];
  node = record split_horizon { lookup_ip = λ host. some (v4 (dotted 100 64 0 9) ∷ []) };
}

parses : parse_tailnet_policy (λ s. false) (bytes "team = Invoices; *=status;") ≡ parsed policy
unfolding parse_tailnet_policy cronlite.WebhookUrl.Policy.parse_entries split_on trim_space
    trim_left trim_right cronlite.WebhookUrl.Policy.cut_equals
    cronlite.WebhookUrl.Policy.parse_hosts cronlite.WebhookUrl.Hostnames.check_policy_host
    cronlite.WebhookUrl.Hostnames.check_hostname_syntax cronlite.WebhookUrl.Hostnames.bad_char
    cronlite.WebhookUrl.Hostnames.contains_dot same_text any cronlite.Base.lookup
parses = refl

hosts-allows_example : allows (some policy) (bytes "team") (bytes "Status.") ≡ (
    (hosts (some policy) (bytes "team")).0
    || among (normal (bytes "Status.")) (hosts (some policy) (bytes "team")).1)
hosts-allows_example = hosts-allows (some policy) (bytes "team") (bytes "Status.")

passes_check :
    check
      (λ s. false)
      (λ s. none)
      (some policy)
      (bytes "team")
      (bytes "invoices.example.ts.net")
      (bytes "example.ts.net")
    ≡ true
unfolding check cronlite.WebhookUrl.Access.is_ascii trim_space trim_left trim_right
    cronlite.WebhookUrl.trim_dot cronlite.WebhookUrl.has_suffix cronlite.WebhookUrl.bytes_eq
    cronlite.WebhookUrl.Access.trim_suffix same_text cronlite.WebhookUrl.Hostnames.contains_dot
    allows cronlite.WebhookUrl.Access.hosts_of cronlite.Base.lookup any
passes_check = refl

delivery-Contained_example :
    Contained split_horizon internal
      (some policy)
      (bytes "team")
      node
      (bytes "invoices.example.ts.net")
      (routed_dial split_horizon internal (some node) (bytes "invoices.example.ts.net"))
unfolding cronlite.WebhookUrl.Access.is_ascii
delivery-Contained_example =
    delivery-Contained split_horizon internal (λ s. none) (some policy) (bytes "team")
      (bytes "invoices.example.ts.net") node refl passes_check

forbidden_refused_example : check_addr (v6 (0xffff * 2 ^ 32 + dotted 10 0 0 7) "") false ≢ none
unfolding is_forbidden_ip
forbidden_refused_example = forbidden_refused (v6 (0xffff * 2 ^ 32 + dotted 10 0 0 7) "") refl
