-- ===== src/Ovndb/LoadBalancer/Rows.antt =====
-- pkg/ovndb/load_balancer.go on the rows of the table, keyed by name: what the operations leave as the
-- virtual addresses of each load balancer, with the documented behaviour of libovsdb as laws.
use zstack_ovn_kubernetes.Base.{
  ◌≡◌, refl, ap, ◌∙◌, Bool, true, false, not, List, [], ◌∷◌, Text, codes, Option, none, some,
  if◌then◌else◌, text_eq, is_empty, Bool-cases, inl, inr, subst,
}
use zstack_ovn_kubernetes.Base.Dict.{Dict, lookup}
use zstack_ovn_kubernetes.Ovndb.Errors.{
  Result, ok, err, Step, fail, follow, Error, validation_error, transaction_error, not_connected,
  object_not_found, is_not_found,
}
use zstack_ovn_kubernetes.Ovndb.Transact.{
  Commits, Atomic, transact_and_check, transact_and_check-Atomic,
}
use zstack_ovn_kubernetes.Ovndb.Table.{
  entries, discard, online, send, send_all, Answer, row, absent, failed, found,
}
use zstack_ovn_kubernetes.Ovndb.LoadBalancer.{
  LoadBalancer, vips_field, LbClient, create_load_balancer, get_load_balancer, set_vips,
  update_load_balancer, delete_load_balancer, new_load_balancer, or_tcp, protocol_valid, created_lb,
}

-- What stands at a name: none without a row, else its virtual addresses.
abbrev pub vips_of : Option LoadBalancer → Option (Dict Text)
vips_of none = none
vips_of (some lb) = some (entries lb.vips)

abbrev pub vips_at : Text → Dict LoadBalancer → Option (Dict Text)
vips_at name table = vips_of (lookup name table)

-- An operation that is sent does to the virtual addresses what the schema says: an insert adds a row
-- under its name, an update of the column writes the row that it was read from, a delete takes the row
-- out; and Get reads the rows.
pub record LbTable {S Op : Type 0} (nb : LbClient S Op) (rows : S → Dict LoadBalancer)
    (effects : List Op → Dict LoadBalancer → Dict LoadBalancer) : Type 0 where
  pub commits : Commits nb.client rows effects
  pub got :
      (n : Text) (s : S) (lb : LoadBalancer)
      → nb.get n s ≡ row lb
      → (lookup n (rows s) ≡ some lb) × (lb.name ≡ n)
  pub missing : (n : Text) (s : S) → nb.get n s ≡ absent → lookup n (rows s) ≡ none
  pub created :
      (lb : LoadBalancer) (ops : List Op) (d : Dict LoadBalancer) (m : Text)
      → nb.create lb ≡ some ops
      → vips_at m (effects ops d)
        ≡ (if text_eq lb.name m then some (entries lb.vips) else vips_at m d)
  pub updated :
      (lb old : LoadBalancer) (ops : List Op) (d : Dict LoadBalancer) (m : Text)
      → nb.update lb (vips_field ∷ []) ≡ some ops
      → lookup lb.name d ≡ some old
      → old.uuid ≡ lb.uuid
      → vips_at m (effects ops d)
        ≡ (if text_eq lb.name m then some (entries lb.vips) else vips_at m d)
  pub deleted :
      (n : Text) (ops : List Op) (d : Dict LoadBalancer) (m : Text)
      → nb.delete n ≡ some ops
      → vips_at m (effects ops d) ≡ (if text_eq n m then none else vips_at m d)

module _ {S Op : Type 0} (nb : LbClient S Op) (rows : S → Dict LoadBalancer)
    (effects : List Op → Dict LoadBalancer → Dict LoadBalancer)
    (table : LbTable nb rows effects) where
  -- The addresses at one name are as given, and at every other name as before.
  abbrev pub Written : Text → Option (Dict Text) → S → S → Type 0
  Written name v s t =
      (m : Text) → vips_at m (rows t) ≡ (if text_eq name m then v else vips_at m (rows s))

  -- A step writes the addresses at one name, or fails and leaves the rows.
  abbrev pub WriteOutcome : {A : Type 0} → Text → Option (Dict Text) → S → S × Result A → Type 0
  WriteOutcome name v s (t, ok a) = Written name v s t
  WriteOutcome name v s (t, err e) = rows t ≡ rows s

  send_all-WriteOutcome :
      (op key name : Text) (v : Option (Dict Text)) (ops : Option (List Op)) (s : S)
      → ((os : List Op)
          → ops ≡ some os
          → (m : Text)
          → vips_at m (effects os (rows s)) ≡ (if text_eq name m then v else vips_at m (rows s)))
      → WriteOutcome name v s (send nb op key ops s)
  send_all-WriteOutcome op key name v none s h = refl
  send_all-WriteOutcome op key name v (some os) s h =
      by_result (transact_and_check nb.client nb.polls os s)
        (transact_and_check-Atomic nb.client rows effects table.commits nb.polls os s)
    where
      by_result :
          (r : S × Result (List Text))
          → Atomic nb.client rows effects os s r
          → WriteOutcome name v s r
      by_result (t, ok us) a = λ m. ap (vips_at m) a ∙ h os refl m
      by_result (t, err e) a = a

  discard-WriteOutcome :
      {A : Type 0} (name : Text) (v : Option (Dict Text)) (s : S) (r : S × Result A)
      → WriteOutcome name v s r
      → WriteOutcome name v s (discard r)
  discard-WriteOutcome name v s (t, ok a) w = w
  discard-WriteOutcome name v s (t, err e) w = w

  created_lb-WriteOutcome :
      (lb : LoadBalancer) (name : Text) (v : Option (Dict Text)) (s : S)
      (r : S × Result (List Text))
      → WriteOutcome name v s r
      → WriteOutcome name v s (created_lb nb lb r)
  created_lb-WriteOutcome lb name v s (t, ok a) w = w
  created_lb-WriteOutcome lb name v s (t, err e) w = w

  guarded :
      {A : Type 0} (b : Bool) (name : Text) (v : Option (Dict Text)) (s : S) (e : Error)
      (f : Step S A)
      → WriteOutcome name v s (f s)
      → WriteOutcome name v s ((if b then fail e else f) s)
  guarded true name v s e f w = refl
  guarded false name v s e f w = w

  online-WriteOutcome :
      {A : Type 0} (name : Text) (v : Option (Dict Text)) (s : S) (f : Step S A)
      → WriteOutcome name v s (f s)
      → WriteOutcome name v s (online nb f s)
  online-WriteOutcome name v s f w = elim (Bool-cases (nb.connected s)) [
    | inl e ↦ rw e w
    | inr e ↦ rw e refl
  ]

  -- CreateLoadBalancer makes the given addresses those at the name, or fails and leaves the rows.
  pub create_load_balancer-WriteOutcome :
      (name protocol : Text) (vips options ids : Option (Dict Text)) (s : S)
      → WriteOutcome name
          (some (entries vips))
          s
          (create_load_balancer nb name protocol vips options ids s)
  unfolding create_load_balancer
  create_load_balancer-WriteOutcome name protocol vips options ids s =
      let v : Option (Dict Text) = some (entries vips) in
      let lb = new_load_balancer name (or_tcp protocol) vips options ids in
      let send_it : Step S LoadBalancer =
        λ s. created_lb nb lb (send nb (codes "CreateLoadBalancer") name (nb.create lb) s) in
      guarded (is_empty name) name v s _ _ (
        guarded (not (protocol_valid (or_tcp protocol))) name v s _ _ (
          online-WriteOutcome name v s send_it (
            created_lb-WriteOutcome lb name v s
              (send nb (codes "CreateLoadBalancer") name (nb.create lb) s)
              (send_all-WriteOutcome (codes "CreateLoadBalancer") name name v (nb.create lb) s
                (λ os e m. table.created lb os (rows s) m e)))))

  -- DeleteLoadBalancer leaves no row at the name, or fails and leaves the rows.
  pub delete_load_balancer-WriteOutcome :
      (name : Text) (s : S) → WriteOutcome name none s (delete_load_balancer nb name s)
  unfolding delete_load_balancer
  delete_load_balancer-WriteOutcome name s = guarded (is_empty name) name none s _ _ (
      online-WriteOutcome name none s
        (send_all nb (codes "DeleteLoadBalancer") name (nb.delete name))
        (discard-WriteOutcome name none s
          (send nb (codes "DeleteLoadBalancer") name (nb.delete name) s)
          (send_all-WriteOutcome (codes "DeleteLoadBalancer") name name none (nb.delete name) s
            (λ os e m. table.deleted name os (rows s) m e))))

  update_vips-WriteOutcome :
      (lb old : LoadBalancer) (s : S)
      → lookup lb.name (rows s) ≡ some old
      → old.uuid ≡ lb.uuid
      → WriteOutcome lb.name
          (some (entries lb.vips))
          s
          (update_load_balancer nb lb (vips_field ∷ []) s)
  unfolding update_load_balancer
  update_vips-WriteOutcome lb old s at same =
      let v : Option (Dict Text) = some (entries lb.vips) in
      let built = nb.update lb (vips_field ∷ []) in
      guarded (is_empty lb.name) lb.name v s _ _ (
        online-WriteOutcome lb.name v s (send_all nb (codes "UpdateLoadBalancer") lb.name built) (
          discard-WriteOutcome lb.name v s (send nb (codes "UpdateLoadBalancer") lb.name built s) (
            send_all-WriteOutcome (codes "UpdateLoadBalancer") lb.name lb.name v built s
              (λ os e m. table.updated lb old os (rows s) m e at same))))

  -- GetLoadBalancer reads the rows and writes nothing; an error other than "not found" says nothing of
  -- them.
  pub data Got (name : Text) (s : S) : S × Result LoadBalancer → Type 0 where
    got_row :
        (lb : LoadBalancer)
        → lookup name (rows s) ≡ some lb
        → lb.name ≡ name
        → Got name s (s, ok lb)
    got_none :
        lookup name (rows s) ≡ none
        → Got name s (s, err (object_not_found (codes "LoadBalancer") name))
    got_error : (e : Error) → is_not_found e ≡ false → Got name s (s, err e)

  pub get_load_balancer-Got : (name : Text) (s : S) → Got name s (get_load_balancer nb name s)
  unfolding get_load_balancer
  get_load_balancer-Got name s = elim (Bool-cases (is_empty name)) [
    | inl e ↦ rw e (got_error (validation_error (codes "name")) refl)
    | inr e ↦ rw e (elim (Bool-cases (nb.connected s)) [
      | inl on ↦ rw on (by_answer (nb.get name s) refl)
      | inr off ↦ rw off (got_error not_connected refl)
    ])
  ]
    where
      by_answer :
          (a : Answer LoadBalancer)
          → nb.get name s ≡ a
          → Got name s (s, found nb (codes "LoadBalancer") (codes "GetLoadBalancer") name a)
      by_answer (row lb) e = let (at, same) = table.got name s lb e in got_row lb at same
      by_answer absent e = got_none (table.missing name s e)
      by_answer failed e = got_error (transaction_error (codes "GetLoadBalancer") name) refl

  -- SetVips of a name without a row fails; else it replaces all the addresses at the name, or fails and
  -- leaves the rows.
  pub set_vips-WriteOutcome :
      (name : Text) (vips : Option (Dict Text)) (s : S)
      → WriteOutcome name (some (entries vips)) s (set_vips nb name vips s)
  unfolding set_vips
  set_vips-WriteOutcome name vips s =
      by_got (get_load_balancer nb name s) (get_load_balancer-Got name s)
    where
      by_got :
          (r : S × Result LoadBalancer)
          → Got name s r
          → WriteOutcome name (some (entries vips)) s (
              follow
                (λ lb. update_load_balancer nb (record lb { vips = vips }) (vips_field ∷ []))
                r)
      by_got _ (got_row lb at same) =
          subst
            (λ (n : Text).
              WriteOutcome n (some (entries vips)) s
                (update_load_balancer nb (record lb { vips = vips }) (vips_field ∷ []) s))
            same
            (update_vips-WriteOutcome (record lb { vips = vips }) lb s
              (ap (λ (n : Text). lookup n (rows s)) same ∙ at) refl)
      by_got _ (got_none at) = refl
      by_got _ (got_error e other) = refl
