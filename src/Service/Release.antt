-- ===== src/Service/Release.antt =====
-- ReleaseModule of service/module.go on modules with everything below them.
use origin.Prelude.{
  ℕ, zero, suc, ◌<◌, ◌≤◌, ◌≡◌, refl, ◌∙◌, sym, ap, arith, nat_eq, ◌==◌, true, false, List, [], ◌∷◌,
  ◌++◌, append_assoc, append-nil, none, some, lookup, Outcome, ok, panic, out_of_fuel, ◌>>=◌, Ends,
  ends, Ends-bind, Ends-map, among, among-append, Bool-cases, inl, inr,
}
use mathlib.Core.Path.{subst}
use mathlib.Core.List.{reverse}
use origin.Service.{
  Entry, Ancestor, Receiver, get_module, child_of, delete_func, release_each, is_in_tree, take_out,
  release_module,
}
use origin.Service.Tree.{
  Forest, nil, node, roots, before, after, size, Represents, IsDistinct, is_receiver, IsOutside,
  without, without-append, Released, Represents-stable, in_tree_stable, child_of_stable,
}
use origin.Service.TakeOut.{TakenOut, take_out_lem}

module _ (r : Receiver) where
  abbrev noted : ℕ → Ancestor → Ancestor
  noted id w = record w { released = w.released ++ id ∷ [] }

  stepped :
      (n id : ℕ) (kids : Forest) (w : Ancestor) (e : Entry)
      → is_in_tree r w ≡ true
      → lookup id w.descendants ≡ some e
      → reverse e.child ≡ roots kids
      → release_module (suc n) r id w
        ≡ (release_each (release_module n r) (roots kids) (noted id w) >>= take_out r id)
  unfolding release_module get_module
  stepped n id kids w e here at order = rw (here, at, release_module) (rw order refl)

  taken_out :
      (id : ℕ) (kids : Forest) (w w1 w2 : Ancestor)
      → IsOutside r (node id kids nil)
      → Released r kids (noted id w) w1
      → TakenOut r id w1 w2
      → Released r (node id kids nil) w w2
  taken_out id kids w w1 w2 out b t =
      let l = λ (j : ℕ). among-append j (after kids) (id ∷ []) in
      record {
        gone = λ j h. elim (Bool-cases (id == j)) [
          | inl e ↦
              let same : id ≡ j = ground arith in
              ap (λ k. lookup k w2.descendants) (sym same) ∙ t.gone
          | inr e ↦ t.kept j e (out j h) ∙ b.gone j (ground (arith, l j))
        ];
        kept = λ j h away. ground (arith, l j, t.kept j, b.kept j);
        children =
            t.children
            ∙ ap (delete_func id) (
                b.children ∙ ap (without (after kids)) (child_of_stable r (noted id w) w refl refl))
            ∙ sym (without-append (after kids) (id ∷ []) (child_of r w));
        stays = t.stays;
        released_all =
            t.released_same
            ∙ b.released_all
            ∙ append_assoc w.released (id ∷ []) (before kids)
            ∙ ap (λ x. w.released ++ (id ∷ x)) (sym (append-nil (before kids)));
        destroyed_all =
            t.destroyed_one
            ∙ ap (λ x. x ++ id ∷ []) b.destroyed_all
            ∙ append_assoc w.destroyed (after kids) (id ∷ []);
      }

  then_rest :
      (id : ℕ) (kids rest : Forest) (w w2 w3 : Ancestor)
      → IsDistinct (node id kids rest)
      → IsOutside r (node id kids rest)
      → Released r (node id kids nil) w w2
      → Released r rest w2 w3
      → Released r (node id kids rest) w w3
  then_rest id kids rest w w2 w3 ne out a b =
      let l = λ (j : ℕ). among-append j (after kids) (id ∷ after rest) in
      let l1 = λ (j : ℕ). among-append j (after kids) (id ∷ []) in
      record {
        gone = λ j h. elim (Bool-cases (among j (after rest))) [
          | inl e ↦ b.gone j e
          | inr e ↦ b.kept j e (out j h) ∙ a.gone j (ground (arith, l j, l1 j))
        ];
        kept = λ j h away. ground (arith, l j, l1 j, a.kept j, b.kept j);
        children =
            b.children
            ∙ ap (without (after rest)) a.children
            ∙ sym (without-append (after kids ++ (id ∷ [])) (after rest) (child_of r w))
            ∙ ap (λ x. without x (child_of r w)) (append_assoc (after kids) (id ∷ []) (after rest));
        stays = b.stays;
        released_all =
            b.released_all
            ∙ ap (λ x. x ++ before rest) a.released_all
            ∙ append_assoc w.released (id ∷ (before kids ++ [])) (before rest)
            ∙ ap (λ x. w.released ++ (id ∷ (x ++ before rest))) (append-nil (before kids));
        destroyed_all =
            b.destroyed_all
            ∙ ap (λ x. x ++ after rest) a.destroyed_all
            ∙ append_assoc w.destroyed (after kids ++ (id ∷ [])) (after rest)
            ∙ ap (λ x. w.destroyed ++ x) (append_assoc (after kids) (id ∷ []) (after rest));
      }

  -- With enough fuel, the modules of the forest are released one after the other, each with all
  -- that is below it.
  release_each_lem :
      (fuel : ℕ) (f : Forest) (w : Ancestor)
      → size f ≤ fuel
      → is_in_tree r w ≡ true
      → Represents w.descendants f
      → IsDistinct f
      → IsOutside r f
      → Ends (Released r f w) (release_each (release_module fuel r) (roots f) w)
  unfolding release_each
  release_each_lem fuel nil w few here v ne out = ends (record {
    gone = λ j h. absurd (cc);
    kept = λ j h away. refl;
    children = refl;
    stays = here;
    released_all = sym (append-nil w.released);
    destroyed_all = sym (append-nil w.destroyed);
  })
  release_each_lem zero (node id kids rest) w few here v ne out = absurd (omega arith)
  release_each_lem (suc n) (node id kids rest) w few here v ne out =
      let (e, at, order) = v.0 in
      let l = λ (j : ℕ). among-append j (after kids) (id ∷ after rest) in
      let l1 = λ (j : ℕ). among-append j (after kids) (id ∷ []) in
      let out_kids : IsOutside r kids = λ j h. out j (ground (arith, l j)) in
      let out_one : IsOutside r (node id kids nil) = λ j h. out j (ground (arith, l j, l1 j)) in
      let out_rest : IsOutside r rest = λ j h. out j (ground (arith, l j)) in
      let below =
        release_each_lem n kids (noted id w) (omega arith)
          (in_tree_stable r w (noted id w) refl here) v.1 ne.3 out_kids in
      rw (stepped n id kids w e here at order) (
        Ends-bind
          (Ends-bind below (λ w1 b.
            Ends-map (take_out_lem r id w1 b.stays (out id (ground (arith, l id))))
              (λ w2 t. taken_out id kids w w1 w2 out_one b t)))
          (λ w2 a.
            let still : Represents w2.descendants rest =
              Represents-stable rest w.descendants w2.descendants
                (λ j h.
                  a.kept j
                    (ground (
                      arith,
                      l1 j,
                      ne.2 j,
                      ne.1,
                      h,
                      ap (λ k. among k (after rest)) {x = id} {y = j},
                    ))
                    (out_rest j h))
                v.2 in
            Ends-map (release_each_lem (suc n) rest w2 (omega arith) a.stays still ne.4 out_rest)
              (λ w3 b. then_rest id kids rest w w2 w3 ne out a b)))

bind_ok : {A : Type 0} (m : Outcome A) → (m >>= λ a. ok a) ≡ m
bind_ok (ok a) = refl
bind_ok panic = refl
bind_ok out_of_fuel = refl

panics :
    (r : Receiver) (n id c : ℕ) (w : Ancestor) (e : Entry) (more : List ℕ)
    → is_in_tree r w ≡ true
    → lookup c w.descendants ≡ some e
    → reverse e.child ≡ id ∷ more
    → lookup id w.descendants ≡ none
    → release_module (suc (suc n)) r c w ≡ panic
unfolding release_module release_each get_module
panics r n id c w e more here at order gone =
    let still = in_tree_stable r w (record w { released = w.released ++ c ∷ [] }) refl here in
    rw (here, at, release_module) (rw order (rw (still, gone, release_module) refl))

-- ReleaseModule of a module that is not the receiver nor above it takes out exactly the module and
-- those below it: OnRelease is called on each before those below it and on the last child first,
-- and each is taken out after those below it; no other module than the receiver is touched, and
-- the receiver loses the module from its children. The fuel need only exceed the number of modules
-- below.
pub release_module_lem :
    (r : Receiver) (fuel id : ℕ) (kids : Forest) (w : Ancestor)
    → size kids < fuel
    → is_in_tree r w ≡ true
    → Represents w.descendants (node id kids nil)
    → IsDistinct (node id kids nil)
    → IsOutside r (node id kids nil)
    → Ends (Released r (node id kids nil) w) (release_module fuel r id w)
unfolding release_each
release_module_lem r fuel id kids w few here v ne out =
    subst (Ends (Released r (node id kids nil) w)) (bind_ok (release_module fuel r id w))
      (release_each_lem r fuel (node id kids nil) w (omega arith) here v ne out)

-- Where a module was released by another receiver than its parent, and it is the last child that
-- the parent lists, releasing the parent panics, since the parent's list still has it.
pub stale_child :
    (r : Receiver) (fuel n id c : ℕ) (kids : Forest) (w : Ancestor) (e : Entry) (more : List ℕ)
    → size kids < fuel
    → is_in_tree r w ≡ true
    → Represents w.descendants (node id kids nil)
    → IsDistinct (node id kids nil)
    → IsOutside r (node id kids nil)
    → lookup c w.descendants ≡ some e
    → reverse e.child ≡ id ∷ more
    → among c (after (node id kids nil)) ≡ false
    → is_receiver r c ≡ false
    → Ends (λ w'. release_module (suc (suc n)) r c w' ≡ panic) (release_module fuel r id w)
stale_child r fuel n id c kids w e more few here v ne out at order apart other =
    Ends-map (release_module_lem r fuel id kids w few here v ne out) (λ w' a.
      panics r n id c w' e more a.stays (a.kept c apart other ∙ at) order
        (a.gone id (ground (arith, among-append id (after kids) (id ∷ [])))))
