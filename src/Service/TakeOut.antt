-- ===== src/Service/TakeOut.antt =====
-- The end of ReleaseModule in service/module.go, which takes one module out.
use origin.Prelude.{
  ℕ, ◌≡◌, refl, ◌∙◌, sym, ap, arith, nat_eq, ◌==◌, true, false, [], ◌∷◌, ◌++◌, none, some, is_some,
  lookup, insert, delete, lookup-insert, lookup-delete, ok, Ends, ends, Option-cases, inl, inr,
}
use mathlib.Core.Path.{subst}
use origin.Service.{
  Entry, Ancestor, Receiver, child_of, update_child, delete_func, is_in_tree, take_out,
}
use origin.Service.Tree.{is_receiver, child_of_entry}

-- What taking one module out does.
pub record TakenOut (r : Receiver) (id : ℕ) (w w' : Ancestor) : Type 0 where
  pub gone : lookup id w'.descendants ≡ none
  pub kept :
      (j : ℕ)
      → (id == j) ≡ false
      → is_receiver r j ≡ false
      → lookup j w'.descendants ≡ lookup j w.descendants
  pub children : child_of r w' ≡ delete_func id (child_of r w)
  pub stays : is_in_tree r w' ≡ true
  pub released_same : w'.released ≡ w.released
  pub destroyed_one : w'.destroyed ≡ w.destroyed ++ id ∷ []

pub take_out_lem :
    (r : Receiver) (id : ℕ) (w : Ancestor)
    → is_in_tree r w ≡ true
    → is_receiver r id ≡ false
    → Ends (TakenOut r id w) (take_out r id w)
unfolding take_out is_in_tree update_child child_of
take_out_lem none id w h other = ends (record {
  gone = ground (arith, lookup-delete id id w.descendants);
  kept = λ j ne away. ground (arith, lookup-delete id j w.descendants);
  children = refl;
  stays = refl;
  released_same = refl;
  destroyed_one = refl;
})
take_out_lem (some m) id w h other = elim (Option-cases (lookup m w.descendants)) [
  | inl e ↦ absurd (let no_entry : is_some (lookup m w.descendants) ≡ false = ap is_some e in cc)
  | inr (en, e) ↦
      let new : Entry = record en { child = delete_func id en.child } in
      let d = insert m new w.descendants in
      let w' : Ancestor = record w {
        descendants = delete id d;
        destroyed = w.destroyed ++ id ∷ [];
      } in
      let taken : take_out (some m) id w ≡ ok w' = rw (e, update_child) refl in
      let there : lookup m (delete id d) ≡ some new =
        ground (arith, lookup-delete id m d, lookup-insert m m new w.descendants) in
      subst (Ends (TakenOut (some m) id w)) (sym taken) (
        ends (record {
          gone = ground (arith, lookup-delete id id d);
          kept = λ j ne away.
              ground (arith, lookup-delete id j d, lookup-insert m j new w.descendants);
          children =
              child_of_entry m w' new there ∙ ap (delete_func id) (sym (child_of_entry m w en e));
          stays = ap is_some there;
          released_same = refl;
          destroyed_one = refl;
        }))
]
