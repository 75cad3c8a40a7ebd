-- ===== src/WebhookUrl/Policy.antt =====
-- internal/webhookurl/tailnet_policy.go: ParseTailnetPolicy.
use cronlite.Base.{
  ℕ, Bool, true, false, Option, none, some, List, [], ◌∷◌, map, nat_beq, lookup, if◌then◌else◌,
}
use cronlite.Base.Texts.{Text, is_nil, split_on, trim_space, to_lower, same_text, points_key}
use cronlite.Dispatcher.Classify.{bytes}
use cronlite.WebhookUrl.Hostnames.{HostError, check_policy_host}

-- The hosts that one namespace may reach.
pub record HostSet : Type 0 where
  pub all : Bool
  pub names : List Text

abbrev pub no_hosts : HostSet
no_hosts = record { all = false; names = [] }

-- `byNamespace`.
abbrev pub TailnetPolicy : Type 0
TailnetPolicy = List (Text × HostSet)

pub data PolicyError : Type 0 where
  bad_entry : Text → PolicyError
  listed_twice : Text → PolicyError
  bad_host : Text → HostError → PolicyError
  empty_policy : PolicyError

pub data Hosts : Type 0 where
  host_set : HostSet → Hosts
  host_refused : PolicyError → Hosts

abbrev pub add_name : Text → Hosts → Hosts
add_name h (host_refused e) = host_refused e
add_name h (host_set s) = host_set (record { all = s.all; names = h ∷ s.names })

abbrev pub add_all : Hosts → Hosts
add_all (host_refused e) = host_refused e
add_all (host_set s) = host_set (record { all = true; names = s.names })

abbrev pub add_host : Text → Option HostError → Hosts → Hosts
add_host h (some e) rest = host_refused (bad_host h e)
add_host h none rest = add_name h rest

-- The loop over the hosts of an entry.
unfoldable pub parse_hosts : (Text → Bool) → List Text → Hosts
unfolding check_policy_host trim_space same_text
parse_hosts is_literal [] = host_set no_hosts
parse_hosts is_literal (raw ∷ more) =
    let h = map to_lower (trim_space raw) in
    let rest = parse_hosts is_literal more in
    if same_text h (bytes "*")
    then add_all rest
    else add_host h (check_policy_host is_literal h) rest

-- strings.Cut(entry, "=").
abbrev pub add_before : ℕ → Option (Text × Text) → Option (Text × Text)
add_before c none = none
add_before c (some (before, after)) = some (c ∷ before, after)

unfoldable pub cut_equals : Text → Option (Text × Text)
cut_equals [] = none
cut_equals (c ∷ s) =
    let rest = cut_equals s in if nat_beq c b'=' then some ([], s) else add_before c rest

pub data ParsedPolicy : Type 0 where
  parsed : TailnetPolicy → ParsedPolicy
  rejected : PolicyError → ParsedPolicy

abbrev pub is_listed : TailnetPolicy → Text → Bool
unfolding lookup same_text
is_listed p ns = elim (lookup ns p) [ none ↦ false | some s ↦ true ]

-- `next` is the rest of the loop, with the map so far.
abbrev pub add_namespace :
    TailnetPolicy → Text → Hosts → (TailnetPolicy → ParsedPolicy) → ParsedPolicy
add_namespace p ns (host_refused e) next = rejected e
add_namespace p ns (host_set s) next = next ((ns, s) ∷ p)

abbrev pub parse_entry :
    (Text → Bool)
    → TailnetPolicy
    → Text
    → Option (Text × Text)
    → (TailnetPolicy → ParsedPolicy)
    → ParsedPolicy
unfolding parse_hosts split_on trim_space lookup same_text
parse_entry is_literal p entry none next = rejected (bad_entry entry)
parse_entry is_literal p entry (some (before, hosts)) next =
    let ns = trim_space before in
    if is_nil ns
    then rejected (bad_entry entry)
    else (if is_listed p ns
        then rejected (listed_twice ns)
        else add_namespace p ns (parse_hosts is_literal (split_on b',' hosts)) next)

-- The loop over the entries.
unfoldable pub parse_entries : (Text → Bool) → TailnetPolicy → List Text → ParsedPolicy
unfolding trim_space cut_equals
parse_entries is_literal p [] = parsed p
parse_entries is_literal p (raw ∷ more) =
    let entry = trim_space raw in
    let skipped = parse_entries is_literal p more in
    if is_nil entry
    then skipped
    else parse_entry is_literal p entry (cut_equals entry) (λ q. parse_entries is_literal q more)

abbrev pub refuse_empty : ParsedPolicy → ParsedPolicy
refuse_empty (rejected e) = rejected e
refuse_empty (parsed p) = if is_nil p then rejected empty_policy else parsed p

unfoldable pub parse_tailnet_policy : (Text → Bool) → Text → ParsedPolicy
unfolding parse_entries split_on
parse_tailnet_policy is_literal raw = refuse_empty (parse_entries is_literal [] (split_on b';' raw))
