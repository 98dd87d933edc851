-- ===== src/SchedulerCache/Frame.antt =====
-- What an operation leaves alone, and what its steps do to the nodes.
use yunikorn_k8shim.Prelude.{
  String, ◌≡◌, ◌≢◌, refl, Bool, true, none, some, List, [], ◌∷◌, ◌++◌, ◌==◌, eq_iff, subst, all,
  arith, if◌then◌else◌, inl, inr, String-cases, ◌∙◌,
}
use yunikorn_k8shim.Prelude.Dict.{Dict, lookup, insert, lookup-insert, lookup-insert_self}
use yunikorn_k8shim.Pod.{Pod, wants_node}
use yunikorn_k8shim.SchedulerCache.NodeInfo.{NodeInfoApi, count}
use yunikorn_k8shim.SchedulerCache.Defs.{SchedulerCache, recount, set_info, update_pvc_ref_counts}
use yunikorn_k8shim.SchedulerCache.Invariant.{belongs, on_node, IsNamed, PodInv, AllNamed}

pub all-append {ℓ} :
    {A : Type ℓ} (test : A → Bool) (xs ys : List A)
    → all test xs ≡ true
    → all test ys ≡ true
    → all test (xs ++ ys) ≡ true
all-append test [] ys h k = k
all-append test (x ∷ xs) ys h k = ground (arith, all-append test xs ys)

module _ {N : Type 0} ⦃api : NodeInfoApi N⦄ where
  open api use {
    node, pods, add_pod, remove_pod_info, pods-add_pod, node-add_pod, node-remove_pod,
    count-remove_pod, all-remove_pod,
  }

  -- The UID `k` stands in the new cache as in the old one.
  pub record Frame (k : String) (c c' : SchedulerCache N) : Type 0 where
    pub same_pod : lookup k c'.pods_map ≡ lookup k c.pods_map
    pub same_assigned : lookup k c'.assigned_pods ≡ lookup k c.assigned_pods
    pub same_assumed : lookup k c'.assumed_pods ≡ lookup k c.assumed_pods
    pub same_orphan : lookup k c'.orphaned_pods ≡ lookup k c.orphaned_pods
    pub same_on : (n : String) → on_node k n c' ≡ on_node k n c

  pub Frame-refl : (k : String) (c : SchedulerCache N) → Frame k c c
  Frame-refl k c = record {
    same_pod = refl;
    same_assigned = refl;
    same_assumed = refl;
    same_orphan = refl;
    same_on = λ n. refl;
  }

  pub Frame-trans :
      {k : String} {c c' c'' : SchedulerCache N} → Frame k c c' → Frame k c' c'' → Frame k c c''
  Frame-trans f g = record {
    same_pod = g.same_pod ∙ f.same_pod;
    same_assigned = g.same_assigned ∙ f.same_assigned;
    same_assumed = g.same_assumed ∙ f.same_assumed;
    same_orphan = g.same_orphan ∙ f.same_orphan;
    same_on = λ n. g.same_on n ∙ f.same_on n;
  }

  pub on_node-none :
      (k n : String) (c : SchedulerCache N) → on_node k n c ≡ none → lookup n c.nodes_map ≡ none
  on_node-none k n c h = ground arith

  pub none-on_node :
      (k n : String) (c : SchedulerCache N) → lookup n c.nodes_map ≡ none → on_node k n c ≡ none
  none-on_node k n c h = ground arith

  -- The invariant of a UID goes over to a cache in which it stands the same.
  pub Frame-PodInv :
      {k : String} {c c' : SchedulerCache N} → Frame k c c' → PodInv c k → PodInv c' k
  Frame-PodInv {k} {c} {c'} f v = record {
    on_own = λ n h. f.same_on n ∙ v.on_own n (ground arith);
    on_no_other = λ n m h e. v.on_no_other n m (ground arith) (ground (arith, f.same_on n));
    assigned_has_pod = λ n h. ground (arith, v.assigned_has_pod n);
    pod_has_uid = λ p h. v.pod_has_uid p (ground arith);
    orphan_has_pod = λ p h.
        let (q, a, b, e, w) = v.orphan_has_pod p (ground arith) in
        (q, ground arith, ground arith, e, w);
  }

  pub IsNamed-remove_pod :
      (p : Pod) (n : String) (info : N) → IsNamed n info → IsNamed n (remove_pod_info p info)
  IsNamed-remove_pod p n info v = record {
    owner = v.owner;
    has_node = node-remove_pod p info ∙ v.has_node;
    name_fits = v.name_fits;
    pods_belong = all-remove_pod (belongs n) p info v.pods_belong;
  }

  pub IsNamed-add_pod :
      (p : Pod) (info : N)
      → p.uid ≢ ""
      → wants_node p ≡ true
      → IsNamed p.node_name info
      → IsNamed p.node_name (add_pod p info)
  IsNamed-add_pod p info h w v = record {
    owner = v.owner;
    has_node = node-add_pod p info ∙ v.has_node;
    name_fits = v.name_fits;
    pods_belong = rw (pods-add_pod p info) (
        all-append (belongs p.node_name) (pods info) (p ∷ []) v.pods_belong
          (ground (arith, eq_iff p.uid "", eq_iff p.node_name p.node_name)));
  }

  pub AllNamed-insert :
      (d : Dict N) (n : String) (info : N)
      → AllNamed d
      → IsNamed n info
      → AllNamed (insert n info d)
  AllNamed-insert d n info v w m i h = elim (String-cases n m) [
    | inl e ↦
        let fresh : lookup m (insert n info d) ≡ some info =
          subst (λ t. lookup t (insert n info d) ≡ some info) e (lookup-insert_self n info d) in
        let same : info ≡ i = cc in subst (λ t. IsNamed t i) e (subst (IsNamed n) same w)
    | inr e ↦ v m i (ground (arith, lookup-insert n info m d))
  ]

  -- updatePVCRefCounts returns for a node with a name, and writes the counts alone.
  pub update_pvc_ref_counts_lem :
      (info : N) (remove_node : Bool) (c : SchedulerCache N) (n : String)
      → IsNamed n info
      → update_pvc_ref_counts info remove_node c
        ≡ some (record c { pvc_ref_counts = recount n info remove_node c.pvc_ref_counts })
  unfolding update_pvc_ref_counts
  update_pvc_ref_counts_lem info remove_node c n v = rw v.has_node (rw v.name_fits)

  -- A node that is written anew shows in the counts of that node alone.
  pub on_node-set_info :
      (k m n : String) (info : N) (c : SchedulerCache N)
      → on_node k m (set_info n info c)
        ≡ (if n == m then some (count k (pods info)) else on_node k m c)
  unfolding set_info
  on_node-set_info k m n info c = ground (arith, lookup-insert n info m c.nodes_map)
