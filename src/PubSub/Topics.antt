-- ===== src/PubSub/Topics.antt =====
-- Subscribe, UnSubscribe and UnSubscribeKey of util/pattern/pubsub/pubsub.go.
use origin.Prelude.{
  ℕ, ◌+◌, ◌<◌, ◌≡◌, ◌≢◌, refl, nat_eq, ◌==◌, if◌then◌else◌, true, false, List, [], ◌∷◌, ◌++◌,
  Option, none, some, lookup, insert, delete, lookup-insert, lookup-delete, arith, Bool-cases,
  Option-cases, inl, inr, ap, ap₂, ◌∙◌, sym,
}
use origin.PubSub.{
  KeyData, Publisher, keys_in, keys_of, heard, publish, subscribe, delete_all, un_subscribe,
  remove_key, del_key, un_subscribe_key,
}
use origin.PubSub.Delivery.{
  occurs, occurs-append, heard-append, heard-insert, heard-insert_one, heard-delete, heard-same,
  lookup-delete_all, occurs-remove_key, without, remove_key-without, without_absent,
}

-- How often a topic should list a key with this entry.
abbrev pub belongs : ℕ → Option KeyData → ℕ
belongs topic none = 0
belongs topic (some d) = if d.topic_type == topic then 1 else 0

-- Each key stands once, in the list of its own topic; keys to come are not in use.
pub record IsConsistent (p : Publisher) : Type 0 where
  pub listed :
      (topic k : ℕ) → occurs k (keys_of topic p) ≡ belongs topic (lookup k p.subscriber_set)
  pub used : (k : ℕ) → p.key_id < k → lookup k p.subscriber_set ≡ none

keys_in-insert :
    (topic t : ℕ) (ks : List ℕ) (topics : List (ℕ × List ℕ))
    → keys_in t (insert topic ks topics) ≡ (if topic == t then ks else keys_in t topics)
unfolding keys_in
keys_in-insert topic t ks topics = ground (arith, lookup-insert topic t ks topics)

keys_in-delete :
    (topic t : ℕ) (topics : List (ℕ × List ℕ))
    → keys_in t (delete topic topics) ≡ (if topic == t then [] else keys_in t topics)
unfolding keys_in
keys_in-delete topic t topics = ground (arith, lookup-delete topic t topics)

keys_in-del_key :
    (topic key t : ℕ) (topics : List (ℕ × List ℕ))
    → keys_in t (del_key topic key topics)
      ≡ (if topic == t then remove_key key (keys_in t topics) else keys_in t topics)
unfolding keys_in del_key remove_key
keys_in-del_key topic key t topics = elim (Option-cases (lookup topic topics)) [
  | inl missing ↦
      rw (missing, del_key)
        (elim (Bool-cases (topic == t)) [
          | inl this ↦
              let same : topic ≡ t = ground arith in
              let gone : lookup t topics ≡ none = sym (ap (λ k. lookup k topics) same) ∙ missing in
              rw (this, gone, keys_in) refl
          | inr other ↦ rw other refl
        ])
  | inr (ks, found) ↦
      rw (found, del_key)
        (elim (Bool-cases (topic == t)) [
          | inl this ↦
              let same : topic ≡ t = ground arith in
              let here : lookup t topics ≡ some ks = sym (ap (λ k. lookup k topics) same) ∙ found in
              rw (this, here, keys_in)
                (keys_in-insert topic t (remove_key key ks) topics ∙ rw this refl)
          | inr other ↦ rw other (keys_in-insert topic t (remove_key key ks) topics ∙ rw other refl)
        ])
]

module _ (p : Publisher) (v : IsConsistent p) where
  -- Where each key stands once, in the list of its topic (IsConsistent), Subscribe to a topic
  -- other than 0 keeps it so, puts the subscriber behind those of the topic, and leaves the
  -- other topics as they are.
  pub subscribe_lem :
      (topic sub : ℕ)
      → topic ≢ 0
      → IsConsistent (subscribe topic sub p).1
        × ((t : ℕ)
            → publish t (subscribe topic sub p).1
              ≡ (if topic == t then publish t p ++ sub ∷ [] else publish t p))
  unfolding subscribe publish
  subscribe_lem topic sub nz =
      let some_topic : (topic == 0) ≡ false = ground arith in
      let key = p.key_id + 1 in
      let ks = keys_of topic p in
      let d : KeyData = record { subscriber = sub; topic_type = topic } in
      let subs = insert key d p.subscriber_set in
      let fresh : (t : ℕ) → occurs key (keys_of t p) ≡ 0 =
        λ t. ground (arith, v.listed t key, v.used key (omega arith)) in
      rw (some_topic, subscribe)
        (
          record {
            listed = λ t k. ground (
              arith,
              keys_in-insert topic t (ks ++ key ∷ []) p.topic_set,
              occurs-append k ks (key ∷ []),
              v.listed t k,
              v.listed topic k,
              v.used key (omega arith),
              lookup-insert key k d p.subscriber_set,
            );
            used = λ k h. ground (arith, v.used k, lookup-insert key k d p.subscriber_set);
          },
          λ t. elim (Bool-cases (topic == t)) [
            | inl this ↦
                let same : topic ≡ t = ground arith in
                rw this (
                  ap (heard subs)
                    (keys_in-insert topic t (ks ++ key ∷ []) p.topic_set ∙ rw this refl)
                  ∙ heard-append subs ks (key ∷ [])
                  ∙ ap₂ ◌++◌ (heard-insert key d p.subscriber_set ks (fresh topic))
                      (heard-insert_one key d p.subscriber_set)
                  ∙ ap (λ u. heard p.subscriber_set (keys_of u p) ++ sub ∷ []) same)
            | inr other ↦ rw other (
                ap (heard subs)
                  (keys_in-insert topic t (ks ++ key ∷ []) p.topic_set ∙ rw other refl)
                ∙ heard-insert key d p.subscriber_set (keys_of t p) (fresh t))
          ],
        )

  no_keys : (t : ℕ) → lookup t p.topic_set ≡ none → keys_of t p ≡ []
  unfolding keys_in
  no_keys t gone = rw (gone, keys_in) refl

  has_keys : (t : ℕ) (ks : List ℕ) → lookup t p.topic_set ≡ some ks → keys_of t p ≡ ks
  unfolding keys_in
  has_keys t ks found = rw (found, keys_in) refl

  -- No key stands in the lists of two topics.
  apart : (topic t k : ℕ) → topic ≢ t → occurs k (keys_of t p) ≢ 0 → occurs k (keys_of topic p) ≡ 0
  apart topic t k ne h = elim (Option-cases (lookup k p.subscriber_set)) [
    | inl missing ↦ absurd (h (v.listed t k ∙ ap (belongs t) missing))
    | inr (d, found) ↦
        let a : occurs k (keys_of t p) ≡ belongs t (some d) = v.listed t k ∙ ap (belongs t) found in
        let b : occurs k (keys_of topic p) ≡ belongs topic (some d) =
          v.listed topic k ∙ ap (belongs topic) found in
        ground (arith, a, b)
  ]

  -- Where each key stands once, in the list of its topic, UnSubscribe of a topic keeps it so,
  -- leaves nobody who hears of it, and the other topics as they are.
  pub un_subscribe_lem :
      (topic : ℕ)
      → IsConsistent (un_subscribe topic p)
        × ((t : ℕ) → publish t (un_subscribe topic p) ≡ (if topic == t then [] else publish t p))
  unfolding un_subscribe publish heard
  un_subscribe_lem topic = elim (Option-cases (lookup topic p.topic_set)) [
    | inl missing ↦
        rw (missing, un_subscribe)
          (
            v,
            λ t. elim (Bool-cases (topic == t)) [
              | inl this ↦
                  let same : topic ≡ t = ground arith in
                  let gone : lookup t p.topic_set ≡ none =
                    sym (ap (λ k. lookup k p.topic_set) same) ∙ missing in
                  rw this (ap (heard p.subscriber_set) (no_keys t gone))
              | inr other ↦ rw other refl
            ],
          )
    | inr (ks, found) ↦
        let here : keys_of topic p ≡ ks = has_keys topic ks found in
        rw (found, un_subscribe)
          (
            record {
              listed = λ t k. ground (
                arith,
                keys_in-delete topic t p.topic_set,
                lookup-delete_all k ks p.subscriber_set,
                v.listed t k,
                v.listed topic k,
                here,
              );
              used = λ k h. ground (arith, v.used k, lookup-delete_all k ks p.subscriber_set);
            },
            λ t. elim (Bool-cases (topic == t)) [
              | inl this ↦
                  let none_left : keys_in t (delete topic p.topic_set) ≡ [] =
                    keys_in-delete topic t p.topic_set ∙ rw this refl in
                  rw this (ap (heard (delete_all ks p.subscriber_set)) none_left)
              | inr other ↦ rw other (
                  ap (heard (delete_all ks p.subscriber_set))
                    (keys_in-delete topic t p.topic_set ∙ rw other refl)
                  ∙ heard-same (delete_all ks p.subscriber_set) p.subscriber_set (keys_of t p)
                      (λ k h.
                        let none_here : (occurs k ks == 0) ≡ true =
                          ground (arith, ap (occurs k) here, apart topic t k (ground arith) h) in
                        lookup-delete_all k ks p.subscriber_set ∙ rw none_here refl))
            ],
          )
  ]

  kept_keys :
      (key : ℕ) (d : KeyData)
      → ((t : ℕ) → occurs key (keys_of t p) ≡ belongs t (some d))
      → (t : ℕ) → keys_in t (del_key d.topic_type key p.topic_set) ≡ without key (keys_of t p)
  kept_keys key d own t = elim (Bool-cases (d.topic_type == t)) [
    | inl this ↦
        keys_in-del_key d.topic_type key t p.topic_set
        ∙ rw this (remove_key-without key (keys_of t p) (ground (arith, own t)))
    | inr other ↦
        keys_in-del_key d.topic_type key t p.topic_set
        ∙ rw other (sym (without_absent key (keys_of t p) (ground (arith, own t))))
  ]

  -- Where each key stands once, in the list of its topic, UnSubscribeKey keeps it so and takes
  -- the key out of every topic; the others hear of events as before, in order.
  pub un_subscribe_key_lem :
      (key : ℕ)
      → IsConsistent (un_subscribe_key key p)
        × ((t : ℕ)
            → publish t (un_subscribe_key key p)
              ≡ heard p.subscriber_set (without key (keys_of t p)))
  unfolding un_subscribe_key publish
  un_subscribe_key_lem key = elim (Option-cases (lookup key p.subscriber_set)) [
    | inl missing ↦
        rw (missing, un_subscribe_key)
          (
            v,
            λ t.
                ap (heard p.subscriber_set) (
                  sym (without_absent key (keys_of t p) (v.listed t key ∙ ap (belongs t) missing))),
          )
    | inr (d, found) ↦
        let own : (t : ℕ) → occurs key (keys_of t p) ≡ belongs t (some d) =
          λ t. v.listed t key ∙ ap (belongs t) found in
        rw (found, un_subscribe_key)
          (
            record {
              listed = λ t k. ground (
                arith,
                keys_in-del_key d.topic_type key t p.topic_set,
                occurs-remove_key key k (keys_of t p),
                lookup-delete key k p.subscriber_set,
                v.listed t k,
                own t,
              );
              used = λ k h. ground (arith, v.used k, lookup-delete key k p.subscriber_set);
            },
            λ t.
                ap (heard (delete key p.subscriber_set)) (kept_keys key d own t)
                ∙ heard-delete key p.subscriber_set (keys_of t p),
          )
  ]
