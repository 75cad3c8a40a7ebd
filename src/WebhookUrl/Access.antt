-- ===== src/WebhookUrl/Access.antt =====
-- internal/webhookurl/tailnet_policy.go: Allows, Hosts, Namespaces, Check and TailnetRelativeHost. A
-- nil policy is `none`. `is_literal` is isIPLiteral and `to_ascii` is idna.Lookup.ToASCII, which may
-- fail.
use cronlite.Base.{
  Bool, true, false, ◌&&◌, ◌||◌, not, Option, none, some, List, [], ◌∷◌, ◌++◌, map, nat_beq, any,
  lookup, sort_by, if◌then◌else◌, ltb,
}
use cronlite.Base.Texts.{Text, is_nil, trim_space, to_lower, same_text, points_key}
use cronlite.Dispatcher.Classify.{bytes}
use cronlite.WebhookUrl.{trim_dot, has_suffix}
use cronlite.WebhookUrl.Hostnames.{contains_dot}
use cronlite.WebhookUrl.Policy.{HostSet, no_hosts, TailnetPolicy}

-- A missing key gives the empty set.
abbrev pub set_or_none : Option HostSet → HostSet
set_or_none none = no_hosts
set_or_none (some s) = s

unfoldable pub hosts_of : TailnetPolicy → Text → HostSet
unfolding lookup same_text
hosts_of p ns = set_or_none (lookup ns p)

abbrev pub in_set : Text → HostSet → Bool
unfolding same_text
in_set h s = any (same_text h) s.names || s.all

abbrev pub any_namespace : Text
any_namespace = bytes "*"

abbrev pub normal : Text → Text
normal host = trim_dot (map to_lower host)

unfoldable pub allows : Option TailnetPolicy → Text → Text → Bool
unfolding hosts_of same_text any
allows none ns host = false
allows (some p) ns host =
    if is_nil ns
    then false
    else in_set (normal host) (hosts_of p ns) || in_set (normal host) (hosts_of p any_namespace)

-- Go's order of strings, which is that of the code points.
unfoldable pub text_le : Text → Text → Bool
text_le [] t = true
text_le (a ∷ s) [] = false
text_le (a ∷ s) (b ∷ t) = ltb a b || (nat_beq a b && text_le s t)

unfoldable pub namespaces : Option TailnetPolicy → List Text
unfolding text_le sort_by
namespaces none = []
namespaces (some p) = sort_by text_le (map (λ e. e.0) p)

-- `seen` and `hosts` of Hosts hold the same names.
unfoldable pub add_unseen : List Text → List Text → List Text
unfolding any same_text
add_unseen seen [] = seen
add_unseen seen (h ∷ more) =
    let known = any (same_text h) seen in add_unseen (if known then seen else seen ++ h ∷ []) more

unfoldable pub hosts : Option TailnetPolicy → Text → Bool × List Text
unfolding hosts_of add_unseen text_le sort_by
hosts none ns = (false, [])
hosts (some p) ns =
    let own = hosts_of p ns in
    let shared = hosts_of p any_namespace in
    if is_nil ns
    then (false, [])
    else (if own.all || shared.all
        then (true, [])
        else (false, sort_by text_le (add_unseen (add_unseen [] own.names) shared.names)))

-- relativeTailnetHost: `host` is a strict subdomain of the suffix, and what stands before it.
abbrev pub tailnet_host : (Text → Bool) → Text → Text → Bool
unfolding has_suffix trim_dot
tailnet_host is_literal host suffix =
    let h = normal host in
    if is_nil suffix || is_nil h || is_literal h then false else has_suffix h (b'.' ∷ suffix)

-- strings.TrimSuffix.
unfoldable pub trim_suffix : Text → Text → Text
unfolding same_text
trim_suffix [] end = []
trim_suffix (c ∷ s) end =
    let rest = trim_suffix s end in if same_text (c ∷ s) end then [] else c ∷ rest

abbrev pub relative_tailnet_host : (Text → Bool) → Text → Text → Option Text
unfolding trim_suffix
relative_tailnet_host is_literal host suffix =
    if tailnet_host is_literal host suffix
    then some (trim_suffix (normal host) (b'.' ∷ suffix))
    else none

unfoldable pub is_ascii : Text → Bool
is_ascii [] = true
is_ascii (c ∷ s) = ltb c 0x80 && is_ascii s

-- The host as the transport dials it.
abbrev pub dialled_host : (Text → Option Text) → Text → Option Text
unfolding is_ascii
dialled_host to_ascii host = if is_ascii host then some host else to_ascii host

abbrev pub normal_suffix : Text → Text
unfolding trim_space
normal_suffix suffix = trim_dot (map to_lower (trim_space suffix))

abbrev pub check_relative : Option TailnetPolicy → Text → Option Text → Bool
unfolding allows contains_dot
check_relative p ns none = true
check_relative p ns (some rel) = not (contains_dot rel) && allows p ns rel

abbrev pub check_dialled : (Text → Bool) → Option TailnetPolicy → Text → Text → Option Text → Bool
check_dialled is_literal p ns suffix none = false
check_dialled is_literal p ns suffix (some host) =
    check_relative p ns (relative_tailnet_host is_literal host suffix)

-- TailnetPolicy.Check: no error.
unfoldable pub check :
    (Text → Bool) → (Text → Option Text) → Option TailnetPolicy → (ns host suffix : Text) → Bool
unfolding is_ascii trim_space
check is_literal to_ascii p ns host suffix =
    let own = normal_suffix suffix in
    if is_nil own then true else check_dialled is_literal p ns own (dialled_host to_ascii host)

abbrev pub relative_dialled : (Text → Bool) → Text → Option Text → Option Text
relative_dialled is_literal suffix none = none
relative_dialled is_literal suffix (some host) = relative_tailnet_host is_literal host suffix

-- TailnetRelativeHost.
unfoldable pub tailnet_relative_host :
    (Text → Bool) → (Text → Option Text) → (host suffix : Text) → Option Text
unfolding is_ascii trim_space
tailnet_relative_host is_literal to_ascii host suffix =
    let own = normal_suffix suffix in
    if is_nil own then none else relative_dialled is_literal own (dialled_host to_ascii host)
