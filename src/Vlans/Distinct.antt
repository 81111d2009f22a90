-- ===== src/Vlans/Distinct.antt =====
-- No two devices are tested in the same VLAN.
use forch.Base.{
  ℕ, ◌≡◌, refl, sym, ap, ◌∙◌, ◌≢◌, ◌⊎◌, inl, inr, String, Bool, true, false, not, ◌&&◌, Option,
  none, some, List, [], ◌∷◌, arith, string_eq, nat_eq, ◌==◌, if◌then◌else◌,
}
use mathlib.Core.Option.{none-ne-some}
use mathlib.Core.Path.{subst}
use forch.Base.Dict
use forch.Base.Exec.{Exec, Result, ok, raised, after}
use forch.Port.State.{is_empty}
use forch.Port.Types.{DeviceBehavior}
use forch.Vlans.{
  Faucetizer, Round, calculate_available_testing_vlans, pop_at, kept, pop_from, testing_with,
  assigned_of, note_vlan, testing_vlan, is_exhausted, calculate_vlan_id, place_devices, start_round,
  finish, update_ports_config,
}
use forch.Vlans.Sets.{
  NotIn, NoDup, IsInjective, pop_at-NotIn, pop_at-NoDup, popped_in, minus-NoDup, minus-removes,
  values-contains,
}

-- What holds of a round: the VLANs that are left are nobody's, and those that are given are distinct.
record IsFair (f : Faucetizer) (r : Round) : Type 0 where
  old_apart :
      (m : String) (v : ℕ)
      → Dict.lookup m f.testing_device_vlans ≡ some v
      → NotIn v r.available_testing_vlans
  new_apart :
      (m : String) (v : ℕ)
      → Dict.lookup m r.new_testing_device_vlans ≡ some v
      → NotIn v r.available_testing_vlans
  source :
      (m : String) (v : ℕ)
      → Dict.lookup m r.new_testing_device_vlans ≡ some v
      → (Dict.lookup m f.testing_device_vlans ≡ some v)
        ⊎ ((k : String) → Dict.lookup k f.testing_device_vlans ≢ some v)
  distinct : IsInjective r.new_testing_device_vlans
  nodup : NoDup r.available_testing_vlans

start_round-IsFair :
    (f : Faucetizer)
    → (pick : List ℕ → ℕ) → NoDup f.all_testing_vlans
    → IsFair f (start_round pick f)
unfolding calculate_available_testing_vlans
start_round-IsFair f pick h = record {
  old_apart = λ m v e.
      minus-removes _ (Dict.values f.testing_device_vlans) v
        (values-contains f.testing_device_vlans m v e);
  new_apart = λ m v e. absurd (none-ne-some v (sym (Dict.lookup-nil m) ∙ e));
  source = λ m v e. absurd (none-ne-some v (sym (Dict.lookup-nil m) ∙ e));
  distinct = λ m k v e. absurd (none-ne-some v (sym (Dict.lookup-nil m) ∙ e));
  nodup =
      minus-NoDup _ (Dict.values f.testing_device_vlans)
        (minus-NoDup f.all_testing_vlans (Dict.values f.segments_to_vlans) h);
}

module _ (f : Faucetizer) (mac : String) (u : ℕ) where
  -- A VLAN that is given to the device: nobody else has it, and it is not left.
  noted-IsFair :
      (pick : List ℕ → ℕ) (r : Round)
      → ((k : String) → Dict.lookup k r.new_testing_device_vlans ≡ some u → k ≡ mac)
      → (Dict.lookup mac f.testing_device_vlans ≡ some u)
        ⊎ ((k : String) → Dict.lookup k f.testing_device_vlans ≢ some u)
      → NotIn u r.available_testing_vlans
      → IsFair f r
      → IsFair f (note_vlan pick mac u r)
  noted-IsFair pick r own from apart v = record {
    old_apart = v.old_apart;
    new_apart = λ m w e. elim (string_eq.dec m mac) [
      | yes p ↦ ap_NotIn w _ (same m w p e) apart
      | no n ↦ v.new_apart m w (other m w n e)
    ];
    source = λ m w e. elim (string_eq.dec m mac) [
      | yes p ↦ sourced m w p (same m w p e) from
      | no n ↦ v.source m w (other m w n e)
    ];
    distinct = λ m k w e g. elim (string_eq.dec m mac) [
      | yes p ↦ elim (string_eq.dec k mac) [
        | yes q ↦ p ∙ sym q
        | no n ↦ p ∙ sym (own k (other k w n g ∙ ap some (sym (same m w p e))))
      ]
      | no n ↦ elim (string_eq.dec k mac) [
        | yes q ↦ own m (other m w n e ∙ ap some (sym (same k w q g))) ∙ sym q
        | no l ↦ v.distinct m k w (other m w n e) (other k w l g)
      ]
    ];
    nodup = v.nodup;
  }
    where
      same :
          (m : String) (w : ℕ)
          → m ≡ mac
          → Dict.lookup m (Dict.insert mac u r.new_testing_device_vlans) ≡ some w
          → u ≡ w
      same m w p e = ground (arith, p, e, Dict.lookup-insert m mac u r.new_testing_device_vlans)

      other :
          (m : String) (w : ℕ)
          → m ≢ mac
          → Dict.lookup m (Dict.insert mac u r.new_testing_device_vlans) ≡ some w
          → Dict.lookup m r.new_testing_device_vlans ≡ some w
      other m w n e = sym (Dict.lookup-insert_ne m mac u r.new_testing_device_vlans n) ∙ e

      ap_NotIn : (w : ℕ) (vlans : List ℕ) → u ≡ w → NotIn u vlans → NotIn w vlans
      ap_NotIn w vlans p h = subst (λ x. NotIn x vlans) p h

      sourced :
          (m : String) (w : ℕ)
          → m ≡ mac
          → u ≡ w
          → (Dict.lookup mac f.testing_device_vlans ≡ some u)
            ⊎ ((k : String) → Dict.lookup k f.testing_device_vlans ≢ some u)
          → (Dict.lookup m f.testing_device_vlans ≡ some w)
            ⊎ ((k : String) → Dict.lookup k f.testing_device_vlans ≢ some w)
      sourced m w p q (inl h) =
          inl (ap (λ x. Dict.lookup x f.testing_device_vlans) p ∙ h ∙ ap some q)
      sourced m w p q (inr h) = inr (λ k e. h k (e ∙ ap some (sym q)))

  -- The VLAN that the device has had.
  kept_own :
      (r : Round)
      → IsInjective f.testing_device_vlans
      → IsFair f r
      → Dict.lookup mac f.testing_device_vlans ≡ some u
      → (k : String) → Dict.lookup k r.new_testing_device_vlans ≡ some u
      → k ≡ mac
  kept_own r inj v held k e = elim (v.source k u e) [
    | inl h ↦ inj k mac u h held
    | inr h ↦ absurd (h mac held)
  ]

-- A VLAN that is popped.
shrunk-IsFair :
    (f : Faucetizer) (r : Round) (k v : ℕ) (vlans : List ℕ)
    → r.available_testing_vlans ≡ v ∷ vlans
    → IsFair f r
    → IsFair f (record r { available_testing_vlans = (pop_at k v vlans).1 })
shrunk-IsFair f r k v vlans e w = record {
  old_apart = λ m x h. (pop_at-NotIn k v vlans x (subst (NotIn x) e (w.old_apart m x h))).1;
  new_apart = λ m x h. (pop_at-NotIn k v vlans x (subst (NotIn x) e (w.new_apart m x h))).1;
  source = w.source;
  distinct = w.distinct;
  nodup = (pop_at-NoDup k v vlans (subst NoDup e w.nodup)).1;
}

abbrev placed_at : ℕ → Option ℕ → Exec Round (Option ℕ × Option ℕ)
placed_at u assigned r = (ok (some u, assigned), r)

module _ (pick : List ℕ → ℕ) (f : Faucetizer) (inj : IsInjective f.testing_device_vlans) where
  assigned_keeps :
      (segment : String) (u : ℕ) (s : Round)
      → (after (assigned_of pick segment f s) (placed_at u)).1 ≡ s
  assigned_keeps segment u s = ground arith

  chosen-IsFair :
      (mac segment : String) (had : Option ℕ) (r : Round)
      → ((u : ℕ) → had ≡ some u → Dict.lookup mac f.testing_device_vlans ≡ some u)
      → IsFair f r
      → IsFair f (testing_with pick mac segment f had r).1
  chosen-IsFair mac segment (some u) r held v =
      let e = held u refl in
      subst (IsFair f) (sym (assigned_keeps segment u (note_vlan pick mac u r)))
        (noted-IsFair f mac u pick r (kept_own f mac u r inj v e) (inl e) (v.old_apart mac u e) v)
  chosen-IsFair mac segment none r held v = popped r.available_testing_vlans refl
    where
      popped :
          (vlans : List ℕ)
          → r.available_testing_vlans ≡ vlans
          → IsFair f
              (after (pop_from pick vlans r) (λ vid s.
                after (assigned_of pick segment f (note_vlan pick mac vid s)) (placed_at vid))).1
      popped [] e = v
      popped (w ∷ vlans) e =
          let k = pick (w ∷ vlans) in
          let u = (pop_at k w vlans).0 in
          let s : Round = record r { available_testing_vlans = (pop_at k w vlans).1 } in
          subst (IsFair f) (sym (assigned_keeps segment u (note_vlan pick mac u s))) (
            noted-IsFair f mac u pick s
              (λ m h. absurd (popped_in k w vlans (subst (NotIn u) e (v.new_apart m u h))))
              (inr (λ m h. popped_in k w vlans (subst (NotIn u) e (v.old_apart m u h))))
              (pop_at-NoDup k w vlans (subst NoDup e v.nodup)).0 (shrunk-IsFair f r k w vlans e v))

  kept_held :
      (mac : String) (u : ℕ) → kept mac f ≡ some u → Dict.lookup mac f.testing_device_vlans ≡ some u
  kept_held mac u h = ground arith

  calculate_vlan_id-IsFair :
      (mac : String) (b : DeviceBehavior) (r : Round)
      → IsFair f r
      → IsFair f (calculate_vlan_id pick mac b f r).1
  unfolding calculate_vlan_id testing_vlan
  calculate_vlan_id-IsFair mac b r v =
      cases (not (is_empty f.sequester_segment) && b.segment == f.sequester_segment)
        (not (Dict.has mac f.testing_device_vlans) && is_exhausted pick r.available_testing_vlans)
    where
      cases :
          (c d : Bool)
          → let x : Result (Option ℕ × Option ℕ) × Round =
              if c
              then (if d
                  then (ok (none, none), r)
                  else testing_with pick mac b.assigned_segment f (kept mac f) r)
              else (ok (Dict.lookup b.segment f.segments_to_vlans, none), r) in
            IsFair f x.1
      cases true true = v
      cases true false = chosen-IsFair mac b.assigned_segment (kept mac f) r (kept_held mac) v
      cases false d = v

  place_devices-IsFair :
      (devices : List (String × DeviceBehavior)) (r : Round)
      → IsFair f r
      → IsFair f (place_devices pick devices f r).1
  unfolding place_devices
  place_devices-IsFair [] r v = v
  place_devices-IsFair ((mac, b) ∷ devices) r v =
      rest (calculate_vlan_id pick mac b f r) (calculate_vlan_id-IsFair mac b r v)
        (λ s w. place_devices-IsFair devices s w)
    where
      rest :
          (x : Result (Option ℕ × Option ℕ) × Round)
          → IsFair f x.1
          → ((s : Round) → IsFair f s → IsFair f (place_devices pick devices f s).1)
          → IsFair f (after x (λ _. place_devices pick devices f)).1
      rest (ok a, s) w ih = ih s w
      rest (raised e, s) w ih = w

-- If no VLAN for tests is listed twice and no two devices have the same one, then after a round over any
-- devices, also one that raises, no two devices have the same one, whichever VLANs are popped.
pub update_ports_config-IsInjective :
    (pick : List ℕ → ℕ) (devices : List (String × DeviceBehavior)) (f : Faucetizer)
    → NoDup f.all_testing_vlans
    → IsInjective f.testing_device_vlans
    → IsInjective (update_ports_config pick devices f).1.testing_device_vlans
unfolding update_ports_config
update_ports_config-IsInjective pick devices f h inj =
    done (place_devices pick devices f (start_round pick f))
      (place_devices-IsFair pick f inj devices (start_round pick f) (start_round-IsFair f pick h))
  where
    done :
        (x : Result (Unit {0}) × Round)
        → IsFair f x.1
        → IsInjective (finish pick f x).1.testing_device_vlans
    done (ok _, r) v = v.distinct
    done (raised e, r) v = inj
