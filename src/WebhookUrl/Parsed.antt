-- ===== src/WebhookUrl/Parsed.antt =====
-- tailnet_policy.go: what ParseTailnetPolicy accepts.
use cronlite.Base.{
  ◌≡◌, refl, Bool, false, Option, none, some, List, [], ◌∷◌, map, All, lookup, if-intro,
}
use cronlite.Base.Texts.{Text, is_nil, trim_space, to_lower, split_on, same_text, points_key}
use cronlite.Dispatcher.Classify.{bytes}
use cronlite.WebhookUrl.Hostnames.{HostError, check_policy_host}
use cronlite.WebhookUrl.Policy.{
  TailnetPolicy, Hosts, host_set, host_refused, add_all, add_host, parse_hosts, cut_equals,
  ParsedPolicy, parsed, rejected, is_listed, add_namespace, parse_entry, parse_entries,
  refuse_empty, parse_tailnet_policy,
}

abbrev pub IsLabel : (Text → Bool) → Text → Type 0
IsLabel is_literal h = check_policy_host is_literal h ≡ none

-- Namespaces that are not empty and differ, each with its set of single labels.
abbrev pub WellFormed : (Text → Bool) → TailnetPolicy → Type 0
WellFormed is_literal [] = Unit
WellFormed is_literal ((ns, s) ∷ p) =
    (is_nil ns ≡ false)
    × (is_listed p ns ≡ false)
    × All (IsLabel is_literal) s.names
    × WellFormed is_literal p

abbrev LabelsIfSet : (Text → Bool) → Hosts → Type 0
LabelsIfSet is_literal (host_refused e) = Unit
LabelsIfSet is_literal (host_set s) = All (IsLabel is_literal) s.names

add_all-Labels :
    (is_literal : Text → Bool) (r : Hosts)
    → LabelsIfSet is_literal r
    → LabelsIfSet is_literal (add_all r)
add_all-Labels is_literal (host_refused e) h = tt
add_all-Labels is_literal (host_set s) h = h

add_host-Labels :
    (is_literal : Text → Bool) (h : Text) (o : Option HostError) (r : Hosts)
    → check_policy_host is_literal h ≡ o
    → LabelsIfSet is_literal r
    → LabelsIfSet is_literal (add_host h o r)
add_host-Labels is_literal h (some e) r c k = tt
add_host-Labels is_literal h none (host_refused e) c k = tt
add_host-Labels is_literal h none (host_set s) c k = (c, k)

parse_hosts-Labels :
    (is_literal : Text → Bool) (raws : List Text)
    → LabelsIfSet is_literal (parse_hosts is_literal raws)
unfolding parse_hosts
parse_hosts-Labels is_literal [] = tt
parse_hosts-Labels is_literal (raw ∷ raws) =
    let h = map to_lower (trim_space raw) in
    let ih = parse_hosts-Labels is_literal raws in
    if-intro (LabelsIfSet is_literal) (same_text h (bytes "*")) _ _
      (λ b. add_all-Labels is_literal (parse_hosts is_literal raws) ih)
      (λ b.
        add_host-Labels is_literal h (check_policy_host is_literal h) (parse_hosts is_literal raws)
          refl ih)

abbrev pub WellFormedIfParsed : (Text → Bool) → ParsedPolicy → Type 0
WellFormedIfParsed is_literal (rejected e) = Unit
WellFormedIfParsed is_literal (parsed p) = WellFormed is_literal p

-- What the rest of the loop gives, if it is given a well-formed map.
abbrev Continues : (Text → Bool) → (TailnetPolicy → ParsedPolicy) → Type 0
Continues is_literal next =
    (p : TailnetPolicy) → WellFormed is_literal p → WellFormedIfParsed is_literal (next p)

add_namespace-WellFormed :
    (is_literal : Text → Bool) (p : TailnetPolicy) (ns : Text) (r : Hosts)
    (next : TailnetPolicy → ParsedPolicy)
    → Continues is_literal next
    → is_nil ns ≡ false
    → is_listed p ns ≡ false
    → LabelsIfSet is_literal r
    → WellFormed is_literal p
    → WellFormedIfParsed is_literal (add_namespace p ns r next)
add_namespace-WellFormed is_literal p ns (host_refused e) next c n l h k = tt
add_namespace-WellFormed is_literal p ns (host_set s) next c n l h k = c ((ns, s) ∷ p) (n, l, h, k)

parse_entry-WellFormed :
    (is_literal : Text → Bool) (p : TailnetPolicy) (entry : Text) (o : Option (Text × Text))
    (next : TailnetPolicy → ParsedPolicy)
    → Continues is_literal next
    → WellFormed is_literal p
    → WellFormedIfParsed is_literal (parse_entry is_literal p entry o next)
unfolding parse_hosts split_on trim_space lookup same_text
parse_entry-WellFormed is_literal p entry none next c k = tt
parse_entry-WellFormed is_literal p entry (some (before, hosts)) next c k =
    let ns = trim_space before in
    let W = WellFormedIfParsed is_literal in
    if-intro W (is_nil ns) _ _ (λ b. tt)
      (λ b.
        if-intro W (is_listed p ns) _ _ (λ d. tt)
          (λ d.
            add_namespace-WellFormed is_literal p ns (parse_hosts is_literal (split_on b',' hosts))
              next c b d (parse_hosts-Labels is_literal (split_on b',' hosts)) k))

parse_entries-WellFormed :
    (is_literal : Text → Bool) (raws : List Text) (p : TailnetPolicy)
    → WellFormed is_literal p
    → WellFormedIfParsed is_literal (parse_entries is_literal p raws)
unfolding parse_entries
parse_entries-WellFormed is_literal [] p k = k
parse_entries-WellFormed is_literal (raw ∷ raws) p k =
    let entry = trim_space raw in
    if-intro (WellFormedIfParsed is_literal) (is_nil entry) _ _
      (λ b. parse_entries-WellFormed is_literal raws p k)
      (λ b.
        parse_entry-WellFormed is_literal p entry (cut_equals entry) _
          (λ q. parse_entries-WellFormed is_literal raws q) k)

-- The policy is well formed and lists something.
abbrev pub AcceptedIfParsed : (Text → Bool) → ParsedPolicy → Type 0
AcceptedIfParsed is_literal (rejected e) = Unit
AcceptedIfParsed is_literal (parsed p) = (is_nil p ≡ false) × WellFormed is_literal p

refuse_empty-Accepted :
    (is_literal : Text → Bool) (r : ParsedPolicy)
    → WellFormedIfParsed is_literal r
    → AcceptedIfParsed is_literal (refuse_empty r)
refuse_empty-Accepted is_literal (rejected e) h = tt
refuse_empty-Accepted is_literal (parsed p) h =
    if-intro (AcceptedIfParsed is_literal) (is_nil p) _ _ (λ b. tt) (λ b. (b, h))

-- A policy that is parsed lists at least one namespace; its namespaces are not empty and differ, and
-- every host it names passes checkPolicyHost.
pub parse_tailnet_policy-Accepted :
    (is_literal : Text → Bool) (raw : Text)
    → AcceptedIfParsed is_literal (parse_tailnet_policy is_literal raw)
unfolding parse_tailnet_policy
parse_tailnet_policy-Accepted is_literal raw =
    refuse_empty-Accepted is_literal (parse_entries is_literal [] (split_on b';' raw))
      (parse_entries-WellFormed is_literal (split_on b';' raw) [] tt)
