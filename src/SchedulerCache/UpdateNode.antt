-- ===== src/SchedulerCache/UpdateNode.antt =====
-- updateNode.
use yunikorn_k8shim.Prelude.{
  String, ◌≡◌, refl, true, false, none, some, List, [], ◌∷◌, ◌++◌, ◌==◌, eq_iff, arith,
  Option-cases, Bool-cases, inl, inr, ◌⊎◌, sym, ◌∙◌, String-cases, subst, member,
}
use yunikorn_k8shim.Prelude.Dict.{lookup}
use yunikorn_k8shim.Pod.{Pod, is_assigned_pod}
use yunikorn_k8shim.SchedulerCache.NodeInfo.{NodeInfoApi}
use yunikorn_k8shim.SchedulerCache.Defs.{SchedulerCache, update_pod}
use yunikorn_k8shim.SchedulerCache.Nodes.{adopt}
use yunikorn_k8shim.SchedulerCache.Invariant.{IsSound}
use yunikorn_k8shim.SchedulerCache.Frame.{Frame, Frame-refl, Frame-trans}
use yunikorn_k8shim.SchedulerCache.Update.{effective}
use yunikorn_k8shim.SchedulerCache.Place.{is_known, Placed}
use yunikorn_k8shim.SchedulerCache.Settle.{update_pod_lem, Placed-IsSound}
use yunikorn_k8shim.SchedulerCache.Assume.{effective-has_node}

module _ {N : Type 0} ⦃api : NodeInfoApi N⦄ where
  -- The UID was an orphan of the node and is now assigned to it.
  pub record Adopted (n : String) (k : String) (c c' : SchedulerCache N) : Type 0 where
    pub orphan : Pod
    pub was_orphan : lookup k c.orphaned_pods ≡ some orphan
    pub fits : orphan.node_name ≡ n
    pub kept : lookup k c'.pods_map ≡ some orphan
    pub assigned : lookup k c'.assigned_pods ≡ some n
    pub no_orphan : lookup k c'.orphaned_pods ≡ none

  -- What the loop over the orphans comes to.
  pub record AdoptLoop (n : String) (ks : List String) (c c' : SchedulerCache N) : Type 0 where
    pub sound : IsSound c'
    pub same_nodes : (m : String) → is_known m c' ≡ is_known m c
    pub each : (k : String) → Frame k c c' ⊎ Adopted n k c c'
    -- No orphan of the node is left among the UIDs that were visited.
    pub complete :
        (k : String) (p : Pod)
        → member k ks ≡ true
        → lookup k c'.orphaned_pods ≡ some p
        → (p.node_name == n) ≡ false

  Adopted-one :
      (n : String) (p : Pod) (c : SchedulerCache N)
      → IsSound c
      → is_known n c ≡ true
      → lookup p.uid c.orphaned_pods ≡ some p
      → p.node_name ≡ n
      → (c' : SchedulerCache N) × (update_pod p c ≡ some (c', true))
        × IsSound c'
        × ((m : String) → is_known m c' ≡ is_known m c)
        × ((k : String) → (p.uid == k) ≡ false → Frame k c c')
        × Adopted n p.uid c c'
  unfolding is_assigned_pod
  Adopted-one n p c v known o e =
      let (q, stored, _, _, wants) = (v.pod_at p.uid).orphan_has_pod p o in
      let named = ((v.pod_at p.uid).pod_has_uid q stored).1 in
      let own : effective p c ≡ p =
        effective-has_node p c (ground (arith, eq_iff p.node_name "")) in
      let (c', returns, post) = update_pod_lem p c v named in
      let post' : Placed p c c' = subst (λ x. Placed x c c') own post in
      (
        c',
        returns ∙ ground arith,
        Placed-IsSound p v post' named,
        post'.same_nodes,
        post'.frame,
        record {
          orphan = p;
          was_orphan = o;
          fits = e;
          kept = ground (arith, post'.now_pod);
          assigned = ground (arith, post'.now_assigned);
          no_orphan = ground (arith, post'.now_orphan);
        },
      )

  Frame-Adopted :
      {n k : String} {c c₁ c' : SchedulerCache N}
      → Frame k c c₁
      → Adopted n k c₁ c'
      → Adopted n k c c'
  Frame-Adopted f a = record {
    orphan = a.orphan;
    was_orphan = sym f.same_orphan ∙ a.was_orphan;
    fits = a.fits;
    kept = a.kept;
    assigned = a.assigned;
    no_orphan = a.no_orphan;
  }

  Adopted-Frame :
      {n k : String} {c c₁ c' : SchedulerCache N}
      → Adopted n k c c₁
      → Frame k c₁ c'
      → Adopted n k c c'
  Adopted-Frame a f = record {
    orphan = a.orphan;
    was_orphan = a.was_orphan;
    fits = a.fits;
    kept = f.same_pod ∙ a.kept;
    assigned = f.same_assigned ∙ a.assigned;
    no_orphan = f.same_orphan ∙ a.no_orphan;
  }

  -- An orphan that is there after the loop was there before it.
  pub still_orphan :
      {n k : String} {c c' : SchedulerCache N} (p : Pod)
      → Frame k c c' ⊎ Adopted n k c c'
      → lookup k c'.orphaned_pods ≡ some p
      → lookup k c.orphaned_pods ≡ some p
  still_orphan p (inl f) h = sym f.same_orphan ∙ h
  still_orphan p (inr a) h = absurd (cc a.no_orphan)

  -- A UID that needs no adoption is visited: the loop goes on as without it.
  AdoptLoop-skip :
      {n : String} {ks : List String} {c c' : SchedulerCache N} (j : String)
      → AdoptLoop n ks c c'
      → ((p : Pod) → lookup j c.orphaned_pods ≡ some p → (p.node_name == n) ≡ false)
      → AdoptLoop n (j ∷ ks) c c'
  AdoptLoop-skip {n} {ks} {c} {c'} j l skip = record {
    sound = l.sound;
    same_nodes = l.same_nodes;
    each = l.each;
    complete = λ k p visited o. elim (String-cases j k) [
      | inl e ↦
          skip p
            (subst (λ t. lookup t c.orphaned_pods ≡ some p) (sym e) (still_orphan p (l.each k) o))
      | inr e ↦ l.complete k p (ground arith) o
    ];
  }

  AdoptLoop-step :
      {n : String} {ks : List String} {c c₁ c' : SchedulerCache N} (j : String)
      → ((m : String) → is_known m c₁ ≡ is_known m c)
      → ((k : String) → (j == k) ≡ false → Frame k c c₁)
      → Adopted n j c c₁
      → AdoptLoop n ks c₁ c'
      → AdoptLoop n (j ∷ ks) c c'
  AdoptLoop-step {n} {ks} {c} {c₁} {c'} j nodes others one l = record {
    sound = l.sound;
    same_nodes = λ m. l.same_nodes m ∙ nodes m;
    each = λ k. elim (String-cases j k) [
      | inr e ↦ elim (l.each k) [
        | inl f ↦ inl (Frame-trans (others k e) f)
        | inr a ↦ inr (Frame-Adopted (others k e) a)
      ]
      | inl e ↦
          subst (λ t. Frame t c c' ⊎ Adopted n t c c') e
            (elim (l.each j) [
              | inl f ↦ inr (Adopted-Frame one f)
              | inr a ↦ absurd (cc (one.no_orphan, a.was_orphan))
            ])
    ];
    complete = λ k p visited o. elim (String-cases j k) [
      | inl e ↦
          let before =
            subst (λ t. lookup t c₁.orphaned_pods ≡ some p) (sym e) (still_orphan p (l.each k) o) in
          absurd (cc one.no_orphan)
      | inr e ↦ l.complete k p (ground arith) o
    ];
  }

  pub adopt_lem :
      (n : String) (ks : List String) (c : SchedulerCache N) (os : List Pod)
      → IsSound c
      → is_known n c ≡ true
      → (c' : SchedulerCache N) × (os' : List Pod) × (adopt n ks c os ≡ some (c', os'))
        × AdoptLoop n ks c c'
  unfolding adopt
  adopt_lem n [] c os v known = (
    c,
    os,
    refl,
    record {
      sound = v;
      same_nodes = λ m. refl;
      each = λ k. inl (Frame-refl k c);
      complete = λ k p visited o. cc;
    },
  )
  adopt_lem n (j ∷ ks) c os v known = elim (Option-cases (lookup j c.orphaned_pods)) [
    | inl absent ↦
        let (c', os', returns, l) = adopt_lem n ks c os v known in
        (c', os', ground arith, AdoptLoop-skip j l (λ p o. cc))
    | inr (p, o) ↦ elim (Bool-cases (p.node_name == n)) [
      | inr other ↦
          let (c', os', returns, l) = adopt_lem n ks c os v known in
          (c', os', ground arith, AdoptLoop-skip j l (λ q h. ground arith))
      | inl here ↦
          let (_, _, _, uid, _) = (v.pod_at j).orphan_has_pod p o in
          let (c₁, joins, sound, nodes, others, one) =
            Adopted-one n p c v known (subst (λ t. lookup t c.orphaned_pods ≡ some p) (sym uid) o)
              ((eq_iff p.node_name n).0 here) in
          let (c', os', returns, l) = adopt_lem n ks c₁ (os ++ p ∷ []) sound (nodes n ∙ known) in
          (
            c',
            os',
            ground arith,
            AdoptLoop-step j nodes
                (subst (λ t. (k : String) → (t == k) ≡ false → Frame k c c₁) uid others)
                (subst (λ t. Adopted n t c c₁) uid one) l,
          )
    ]
  ]
