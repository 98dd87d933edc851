-- ===== src/SchedulerCache/Preserve.antt =====
-- The operations on pods and nodes keep a valid cache valid.
use yunikorn_k8shim.Prelude.{
  String, ◌≡◌, ◌≢◌, Bool, Option, none, some, [], ◌==◌, eq_iff, arith, if◌then◌else◌, Bool-cases,
  inl, inr, ◌∙◌, ◌⊎◌, ap, String-cases, subst, sym,
}
use yunikorn_k8shim.Prelude.Dict.{Dict, lookup, insert}
use yunikorn_k8shim.Pod.{Pod}
use yunikorn_k8shim.SchedulerCache.NodeInfo.{Node, NodeInfoApi}
use yunikorn_k8shim.SchedulerCache.Defs.{SchedulerCache, update_pod, assume_pod}
use yunikorn_k8shim.SchedulerCache.Nodes.{remove_node}
use yunikorn_k8shim.SchedulerCache.Invariant.{OrphansWait, IsValid}
use yunikorn_k8shim.SchedulerCache.Frame.{on_node-none, none-on_node}
use yunikorn_k8shim.SchedulerCache.Update.{effective}
use yunikorn_k8shim.SchedulerCache.Place.{Placed}
use yunikorn_k8shim.SchedulerCache.Settle.{update_pod_lem, Placed-IsSound, effective-uid}
use yunikorn_k8shim.SchedulerCache.Remove.{Gone}
use yunikorn_k8shim.SchedulerCache.Assume.{IsSound-assumed}
use yunikorn_k8shim.SchedulerCache.Release.{is_assumed}
use yunikorn_k8shim.SchedulerCache.RemoveNode.{NodeLeft}

some-cases : (n : String) (o : Option String) → (o ≡ some n) ⊎ (o ≢ some n)
some-cases n none = inr (λ e. cc)
some-cases n (some m) = elim (String-cases m n) [
  | inl e ↦ inl (ap some e)
  | inr e ↦ inr (λ h. ground (arith, eq_iff m n))
]

module _ {N : Type 0} ⦃api : NodeInfoApi N⦄ where
  pub Placed-OrphansWait :
      {c c' : SchedulerCache N} (p : Pod) → OrphansWait c → Placed p c c' → OrphansWait c'
  Placed-OrphansWait {c} {c'} p wait post k q o = elim (String-cases p.uid k) [
    | inl e ↦
        let o' = subst (λ t. lookup t c'.orphaned_pods ≡ some q) (sym e) o in
        ground (arith, post.now_orphan, post.same_nodes p.node_name)
    | inr e ↦
        let f = post.frame k e in
        ground (arith, wait k q (sym f.same_orphan ∙ o), post.same_nodes q.node_name)
  ]

  pub Placed-IsValid :
      {c c' : SchedulerCache N} (p : Pod) → IsValid c → Placed p c c' → p.uid ≢ "" → IsValid c'
  Placed-IsValid p v post u = record {
    sound = Placed-IsSound p v.sound post u;
    orphans_wait = Placed-OrphansWait p v.orphans_wait post;
  }

  pub Gone-OrphansWait :
      {c c' : SchedulerCache N} (key : String) → OrphansWait c → Gone key c c' → OrphansWait c'
  Gone-OrphansWait {c} {c'} key wait g k q o = elim (String-cases key k) [
    | inl e ↦
        let o' = subst (λ t. lookup t c'.orphaned_pods ≡ some q) (sym e) o in
        absurd (cc g.no_orphan)
    | inr e ↦
        let f = g.frame k e in
        on_node-none k q.node_name c'
          (f.same_on q.node_name ∙ none-on_node k q.node_name c (wait k q (sym f.same_orphan ∙ o)))
  ]

  -- From a valid cache updatePod returns a valid cache.
  pub update_pod-IsValid :
      (p : Pod) (c : SchedulerCache N)
      → IsValid c
      → p.uid ≢ ""
      → (c' : SchedulerCache N) × (result : Bool) × (update_pod p c ≡ some (c', result))
        × IsValid c'
  update_pod-IsValid p c v u =
      let (c', returns, post) = update_pod_lem p c v.sound u in
      (
        c',
        _,
        returns,
        Placed-IsValid (effective p c) v post (subst (λ k. k ≢ "") (sym (effective-uid p c)) u),
      )

  pub IsValid-assumed :
      {c : SchedulerCache N} (assumed : Dict Bool)
      → IsValid c
      → IsValid (record c { assumed_pods = assumed })
  IsValid-assumed assumed v = record {
    sound = IsSound-assumed assumed v.sound;
    orphans_wait = v.orphans_wait;
  }

  pub remove_node-OrphansWait :
      {c c' : SchedulerCache N} (n : String)
      → OrphansWait c
      → ((m : String) → lookup m c'.nodes_map ≡ (if n == m then none else lookup m c.nodes_map))
      → ((k : String) → NodeLeft n c c' k)
      → OrphansWait c'
  remove_node-OrphansWait {c} {c'} n wait nodes left k q o =
      elim (some-cases n (lookup k c.assigned_pods)) [
        | inr other ↦
            let (_, _, _, same) = (left k).elsewhere other in
            ground (arith, wait k q (sym same ∙ o), nodes q.node_name)
        | inl here ↦ elim (Bool-cases (is_assumed k c)) [
          | inl assumed ↦
              let (_, _, _, _, none_there) = (left k).pending_again here assumed in absurd (cc)
          | inr bound ↦
              let (p, now, name, _, _) = (left k).orphan_now here bound in
              ground (arith, nodes q.node_name, eq_iff n q.node_name)
        ]
      ]

  pub assume_pod-IsValid :
      (p : Pod) (b : Bool) (c : SchedulerCache N)
      → IsValid c
      → p.uid ≢ ""
      → (c' : SchedulerCache N) × (assume_pod p b c ≡ some c') × IsValid c'
  unfolding assume_pod
  assume_pod-IsValid p b c v u =
      let (c₁, result, returns, v₁) = update_pod-IsValid p c v u in
      let assumed = insert p.uid b c₁.assumed_pods in
      (record c₁ { assumed_pods = assumed }, rw returns, IsValid-assumed assumed v₁)

  pub remove_node-absent :
      (x : Node) (c : SchedulerCache N)
      → lookup x.name c.nodes_map ≡ none
      → remove_node x c ≡ some (c, none, [])
  unfolding remove_node
  remove_node-absent x c h = ground arith
