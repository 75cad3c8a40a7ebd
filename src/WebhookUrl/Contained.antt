-- ===== src/WebhookUrl/Contained.antt =====
-- tailnet_policy.go and tailnet.go: what a delivery of a namespace can reach.
use cronlite.Base.{
  ◌≡◌, refl, sym, ap, Bool, true, false, ◌||◌, Option, none, some, List, [], ◌∷◌, ◌++◌, arith, All,
  any, any-append, any-sort_by, if◌then◌else◌, if-intro,
}
use mathlib.Core.Path.{subst}
use cronlite.Base.Texts.{Text, is_nil, same_text, same_text_iff}
use cronlite.WebhookUrl.{Addr, unmap, World, Allowlist, dial_each}
use cronlite.WebhookUrl.Dial.{Passes, private_ok, dial_safe, dial_each-All}
use cronlite.WebhookUrl.Policy.{TailnetPolicy}
use cronlite.WebhookUrl.Access.{
  hosts_of, normal, allows, hosts, add_unseen, text_le, any_namespace, tailnet_host, trim_suffix,
  relative_tailnet_host, is_ascii, normal_suffix, check, check_relative,
}
use cronlite.WebhookUrl.Hostnames.{contains_dot}
use cronlite.WebhookUrl.Tailnet.{
  Tailnet, TailnetReason, check_tailnet_addr, TailnetChecked, off_limits, peers, add_peer,
  check_peers, dial_peers, tailnet_resolved, tailnet_dial, Routed, by_public, by_tailnet,
  routed_dial, is_node, is_service, is_reserved, same_addr,
}

-- Among the names.
abbrev pub among : Text → List Text → Bool
unfolding same_text any
among h names = any (same_text h) names

known-among :
    (h x : Text) (seen : List Text)
    → any (same_text x) seen ≡ true
    → same_text h x ≡ true
    → among h seen ≡ true
unfolding among any
known-among h x seen k e =
    subst (λ y. any (same_text y) seen ≡ true) (sym ((same_text_iff h x).0 e)) k

among-unseen :
    (h : Text) (seen names : List Text)
    → among h (add_unseen seen names) ≡ (among h seen || among h names)
unfolding add_unseen any
among-unseen h seen [] = ground arith
among-unseen h seen (x ∷ names) =
    if-intro (λ next. among h (add_unseen next names) ≡ (among h seen || among h (x ∷ names)))
      (any (same_text x) seen) seen (seen ++ x ∷ [])
      (λ k. ground (arith, among-unseen h seen names, known-among h x seen k))
      (λ k.
        ground
          (arith, among-unseen h (seen ++ x ∷ []) names, any-append (same_text h) seen (x ∷ [])))

-- Hosts lists exactly what Allows allows: for every policy, namespace and host, the host may be
-- reached exactly if Hosts says that every host may be, or lists it in its normal form.
pub hosts-allows :
    (p : Option TailnetPolicy) (ns host : Text)
    → allows p ns host ≡ ((hosts p ns).0 || among (normal host) (hosts p ns).1)
unfolding allows hosts any
hosts-allows none ns host = refl
hosts-allows (some p) ns host =
    let h = normal host in
    let own = hosts_of p ns in
    let shared = hosts_of p any_namespace in
    let first = add_unseen [] own.names in
    let listed = any-sort_by (same_text h) text_le (add_unseen first shared.names) in
    ground (arith, listed, among-unseen h first shared.names, among-unseen h [] own.names)

-- A node of the tailnet, other than this one.
abbrev pub IsPeer : List Addr → Addr → Type 0
unfolding any
IsPeer self a =
    (is_node a ≡ true)
    × (is_service a ≡ false)
    × (is_reserved a ≡ false)
    × (any (λ s. same_addr (unmap s) a) self ≡ false)

checked-IsPeer :
    (self : List Addr) (a : Addr) → check_tailnet_addr a self ≡ none → IsPeer self (unmap a)
unfolding check_tailnet_addr any
checked-IsPeer self a h = ground (arith, h)

-- The checked addresses, if there are such.
abbrev AllPeers : List Addr → TailnetChecked → Type 0
AllPeers self (off_limits a reason) = Unit
AllPeers self (peers more) = All (IsPeer self) more

add_peer-AllPeers :
    (self : List Addr) (a : Addr) (o : Option TailnetReason) (rest : TailnetChecked)
    → check_tailnet_addr a self ≡ o
    → AllPeers self rest
    → AllPeers self (add_peer a o rest)
add_peer-AllPeers self a (some reason) rest e h = tt
add_peer-AllPeers self a none (off_limits c reason) e h = tt
add_peer-AllPeers self a none (peers more) e h = (checked-IsPeer self a e, h)

check_peers-AllPeers : (self addrs : List Addr) → AllPeers self (check_peers self addrs)
unfolding check_peers
check_peers-AllPeers self [] = tt
check_peers-AllPeers self (a ∷ addrs) =
    add_peer-AllPeers self a (check_tailnet_addr a self) (check_peers self addrs) refl
      (check_peers-AllPeers self addrs)

dial_peers-All :
    (self : List Addr) (w : World) (c : TailnetChecked)
    → AllPeers self c
    → All (IsPeer self) (dial_peers w c).dialled
unfolding dial_each
dial_peers-All self w (off_limits a reason) h = tt
dial_peers-All self w (peers more) h = dial_each-All (IsPeer self) w 0 none more h

resolved-AllPeers :
    (tn : Tailnet) (o : Option (List Addr))
    → All (IsPeer tn.self_addrs) (tailnet_resolved tn o).dialled
unfolding check_peers dial_each
resolved-AllPeers tn none = tt
resolved-AllPeers tn (some []) = tt
resolved-AllPeers tn (some (a ∷ addrs)) =
    dial_peers-All tn.self_addrs tn.node (check_peers tn.self_addrs (a ∷ addrs))
      (check_peers-AllPeers tn.self_addrs (a ∷ addrs))

tailnet_dial-AllPeers :
    (tn : Tailnet) (host : Text) → All (IsPeer tn.self_addrs) (tailnet_dial tn host).dialled
unfolding tailnet_dial check_peers dial_each
tailnet_dial-AllPeers tn host = resolved-AllPeers tn (tn.node.lookup_ip host)

-- The host's part before the suffix is one label that the namespace may reach.
abbrev pub MayReach : Option TailnetPolicy → Text → (host suffix : Text) → Type 0
MayReach p ns host suffix =
    let rel = trim_suffix (normal host) (b'.' ∷ suffix) in
    (contains_dot rel ≡ false) × (allows p ns rel ≡ true)

relative-some :
    (is_literal : Text → Bool) (host suffix : Text)
    → tailnet_host is_literal host suffix ≡ true
    → relative_tailnet_host is_literal host suffix
      ≡ some (trim_suffix (normal host) (b'.' ∷ suffix))
unfolding trim_suffix
relative-some is_literal host suffix routed =
    ap (λ b. if b then some (trim_suffix (normal host) (b'.' ∷ suffix)) else none) routed

relative-allowed :
    (p : Option TailnetPolicy) (ns rel : Text)
    → check_relative p ns (some rel) ≡ true
    → (contains_dot rel ≡ false) × (allows p ns rel ≡ true)
unfolding contains_dot allows
relative-allowed p ns rel h = ground (arith, h)

check-dialled :
    (is_literal : Text → Bool) (to_ascii : Text → Option Text) (p : Option TailnetPolicy)
    (ns host suffix : Text)
    → is_ascii host ≡ true
    → check is_literal to_ascii p ns host suffix ≡ true
    → is_nil (normal_suffix suffix) ≡ false
    → check_relative p ns (relative_tailnet_host is_literal host (normal_suffix suffix)) ≡ true
unfolding check is_ascii
check-dialled is_literal to_ascii p ns host suffix ascii ok named = ground (arith, ascii, ok, named)

check-MayReach :
    (is_literal : Text → Bool) (to_ascii : Text → Option Text) (p : Option TailnetPolicy)
    (ns host suffix : Text)
    → is_ascii host ≡ true
    → check is_literal to_ascii p ns host suffix ≡ true
    → is_nil (normal_suffix suffix) ≡ false
    → tailnet_host is_literal host (normal_suffix suffix) ≡ true
    → MayReach p ns host (normal_suffix suffix)
check-MayReach is_literal to_ascii p ns host suffix ascii ok named routed =
    let own = normal_suffix suffix in
    relative-allowed p ns (trim_suffix (normal host) (b'.' ∷ own)) (
      subst (λ rel. check_relative p ns rel ≡ true) (relative-some is_literal host own routed)
        (check-dialled is_literal to_ascii p ns host suffix ascii ok named))

-- What is dialled is checked: on the public path by the guard, on the tailnet as a peer, and there
-- the namespace may reach the host.
abbrev pub Contained :
    World
    → Allowlist
    → Option TailnetPolicy
    → (ns : Text) → Tailnet
    → (host : Text) → Routed
    → Type 0
Contained w allow p ns tn host (by_public r) =
    All (Passes (private_ok w allow host (w.parse_addr host))) r.dialled
Contained w allow p ns tn host (by_tailnet r) =
    All (IsPeer tn.self_addrs) r.dialled × MayReach p ns host (normal_suffix tn.suffix)

-- If the policy's check passes for a namespace and an ASCII host, then whatever the resolvers
-- answer, the delivery dials over the public path only addresses that pass the guard's check, or it
-- dials over the tailnet only nodes other than this one, and the namespace may reach the host.
pub delivery-Contained :
    (w : World) (allow : Allowlist) (to_ascii : Text → Option Text) (p : Option TailnetPolicy)
    (ns host : Text) (tn : Tailnet)
    → is_ascii host ≡ true
    → check w.ip_literal to_ascii p ns host tn.suffix ≡ true
    → Contained w allow p ns tn host (routed_dial w allow (some tn) host)
unfolding routed_dial
delivery-Contained w allow to_ascii p ns host tn ascii ok =
    let C = Contained w allow p ns tn host in
    let suffix = normal_suffix tn.suffix in
    if-intro C (is_nil suffix) _ _ (λ b. dial_safe w allow host)
      (λ b.
        if-intro C (tailnet_host w.ip_literal host suffix) _ _
          (λ c. (
            tailnet_dial-AllPeers tn host,
            check-MayReach w.ip_literal to_ascii p ns host tn.suffix ascii ok b c,
          ))
          (λ c. dial_safe w allow host))
