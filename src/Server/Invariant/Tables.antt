-- ===== src/Server/Invariant/Tables.antt =====
-- How the tables of `RelayServer` (apps/relay/src/server.rs) stay in step with each other.
use xs_nexus.Base.{
  ℕ, ◌<◌, ◌≤◌, ◌≡◌, ◌≢◌, inl, inr, refl, sym, ap, ◌∙◌, Option, none, some, List, length, nat_key,
  lookup, insert, remove, lookup-insert_ne, lookup-remove_ne, same_key, insert_cases, remove_cases,
  lookup-insert_at, length-insert, length-remove_known, arith, some-eq,
}
use mathlib.Core.Path.{subst}
use xs_nexus.Server.{NodeKey, Lease, node_key}
use xs_nexus.Server.Registration.{drop_previous}
use xs_nexus.Server.Invariant.{Indexed}

-- Two nodes with one id are one node.
one_node :
    (nodes : List (NodeKey × ℕ)) (leases : List (ℕ × Lease))
    → Indexed nodes leases
    → (id : ℕ) (node other : NodeKey) → lookup node nodes ≡ some id
    → lookup other nodes ≡ some id
    → node ≡ other
one_node nodes leases x id node other here there =
    let (l, held, of) = x.lease_of node id here in
    let (m, held2, of2) = x.lease_of other id there in
    sym of ∙ (ap Lease.node (some-eq (sym held ∙ held2)) ∙ of2)

-- A lease that is changed, but for its node.
pub update-Indexed :
    (nodes : List (NodeKey × ℕ)) (leases : List (ℕ × Lease)) (id : ℕ) (lease lease' : Lease)
    → Indexed nodes leases
    → lookup id leases ≡ some lease
    → lease'.node ≡ lease.node
    → Indexed nodes (insert id lease' leases)
update-Indexed nodes leases id lease lease' x found same = record {
  lease_of = λ node other at.
      let (l, there, of) = x.lease_of node other at in
      elim (same_key id other) [
        | inl e ↦
            let one : lease ≡ l =
              some-eq (sym found ∙ subst (λ i. lookup i leases ≡ some l) (sym e) there) in
            (lease', lookup-insert_at id other lease' leases e, same ∙ (ap Lease.node one ∙ of))
        | inr ne ↦ (l, lookup-insert_ne id other lease' leases ne ∙ there, of)
      ];
  node_of = λ other l at. elim (insert_cases id other lease' l leases at) [
    | inl (e, one) ↦
        subst (λ i. lookup l.node nodes ≡ some i) e
          (subst (λ n. lookup n nodes ≡ some id) (sym same ∙ ap Lease.node one)
            (x.node_of id lease found))
    | inr (ne, there) ↦ x.node_of other l there
  ];
}

-- A lease leaves with its node's entry.
pub remove-Indexed :
    (nodes : List (NodeKey × ℕ)) (leases : List (ℕ × Lease)) (id : ℕ) (node : NodeKey)
    → Indexed nodes leases
    → lookup node nodes ≡ some id
    → Indexed (remove node nodes) (remove id leases)
remove-Indexed nodes leases id node x here = record {
  lease_of = λ other i at.
      let (ne, there) = remove_cases node other i nodes at in
      let (l, held, of) = x.lease_of other i there in
      (
        l,
        lookup-remove_ne id i leases (λ e. ne (
              one_node nodes leases x id node other here
                (subst (λ k. lookup other nodes ≡ some k) (sym e) there)))
            ∙ held,
        of,
      );
  node_of = λ i l at.
      let (ne, held) = remove_cases id i l leases at in
      let there = x.node_of i l held in
      lookup-remove_ne node l.node nodes
        (λ e. ne (some-eq (sym here ∙ subst (λ n. lookup n nodes ≡ some i) (sym e) there)))
      ∙ there;
}

pub none-some : {A : Type 0} {a : A} → none ≢ some a
none-some e = cc

-- The leases that stay when a node's earlier lease goes.
drop_previous_cases :
    (previous : Option ℕ) (leases : List (ℕ × Lease)) (id : ℕ) (lease : Lease)
    → lookup id (drop_previous previous leases) ≡ some lease
    → (previous ≢ some id) × (lookup id leases ≡ some lease)
drop_previous_cases none leases id lease h = (λ e. cc, h)
drop_previous_cases (some previous) leases id lease h =
    let (ne, held) = remove_cases previous id lease leases h in (λ e. ne (some-eq e), held)

lookup-drop_previous :
    (previous : Option ℕ) (leases : List (ℕ × Lease)) (id : ℕ)
    → previous ≢ some id
    → lookup id (drop_previous previous leases) ≡ lookup id leases
lookup-drop_previous none leases id ne = refl
lookup-drop_previous (some previous) leases id ne =
    lookup-remove_ne previous id leases (λ e. ne (ap some e))

-- A fresh id and its lease take the place of the node's earlier lease.
pub install-Indexed :
    (nodes : List (NodeKey × ℕ)) (leases : List (ℕ × Lease)) (id : ℕ) (lease : Lease)
    → Indexed nodes leases
    → lookup id leases ≡ none
    → Indexed
        (insert lease.node id nodes)
        (insert id lease (drop_previous (lookup lease.node nodes) leases))
install-Indexed nodes leases id lease x fresh =
    let earlier : Option ℕ = lookup lease.node nodes in
    let others = drop_previous earlier leases in
    record {
      lease_of = λ node other at. elim (insert_cases lease.node node id other nodes at) [
        | inl (e, i) ↦ (lease, lookup-insert_at id other lease others i, e)
        | inr (ne, there) ↦
            let (l, held, of) = x.lease_of node other there in
            (
              l,
              lookup-insert_ne id other lease others (λ i.
                    none-some (sym fresh ∙ subst (λ k. lookup k leases ≡ some l) (sym i) held))
                  ∙ (lookup-drop_previous earlier leases other
                        (λ here. ne (one_node nodes leases x other lease.node node here there))
                      ∙ held),
              of,
            )
      ];
      node_of = λ i l at. elim (insert_cases id i lease l others at) [
        | inl (e, one) ↦ lookup-insert_at lease.node l.node id nodes (ap Lease.node one) ∙ ap some e
        | inr (ne, kept) ↦
            let (gone, held) = drop_previous_cases earlier leases i l kept in
            let there = x.node_of i l held in
            lookup-insert_ne lease.node l.node id nodes
              (λ e. gone (subst (λ n. lookup n nodes ≡ some i) (sym e) there))
            ∙ there
      ];
    }

-- Registration keeps the number of leases within a bound that it respects.
pub install-bounded :
    (nodes : List (NodeKey × ℕ)) (leases : List (ℕ × Lease)) (id : ℕ) (lease : Lease) (most : ℕ)
    → Indexed nodes leases
    → length leases ≤ most
    → (o : Option ℕ) → lookup lease.node nodes ≡ o
    → (o ≡ none → length leases < most)
    → length (insert id lease (drop_previous o leases)) ≤ most
install-bounded nodes leases id lease most x le none p room =
    let below = room refl in omega (arith, length-insert id lease leases)
install-bounded nodes leases id lease most x le (some previous) p room =
    let (l, held, _) = x.lease_of lease.node previous p in
    omega (
      arith,
      length-insert id lease (remove previous leases),
      length-remove_known previous l leases held,
    )

-- A lease that is not there leaves.
pub remove_gone-Indexed :
    (nodes : List (NodeKey × ℕ)) (leases : List (ℕ × Lease)) (id : ℕ)
    → Indexed nodes leases
    → lookup id leases ≡ none
    → Indexed nodes (remove id leases)
remove_gone-Indexed nodes leases id x gone = record {
  lease_of = λ node other at.
      let (l, held, of) = x.lease_of node other at in
      (
        l,
        lookup-remove_ne id other leases
              (λ e. none-some (sym gone ∙ subst (λ i. lookup i leases ≡ some l) (sym e) held))
            ∙ held,
        of,
      );
  node_of = λ i l at. x.node_of i l (remove_cases id i l leases at).1;
}
