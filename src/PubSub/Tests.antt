-- ===== src/PubSub/Tests.antt =====
-- Concrete runs of util/pattern/pubsub/pubsub.go: two subscribers of topic 1 and one of topic 2.
use origin.Prelude.{ℕ, ◌≡◌, nat_eq, [], ◌∷◌, lookup, arith}
use origin.PubSub.{KeyData, Publisher, keys_in, keys_of, heard, publish, un_subscribe_key}
use origin.PubSub.Delivery.{without}
use origin.PubSub.Topics.{IsConsistent, un_subscribe_key_lem}

abbrev entry : ℕ → ℕ → KeyData
entry sub topic = record { subscriber = sub; topic_type = topic }

abbrev three : Publisher
three = record {
  key_id = 3;
  subscriber_set = (1, entry 70 1) ∷ (2, entry 71 2) ∷ (3, entry 72 1) ∷ [];
  topic_set = (1, 1 ∷ 3 ∷ []) ∷ (2, 2 ∷ []) ∷ [];
}

three-IsConsistent : IsConsistent three
unfolding lookup keys_in
three-IsConsistent = record { listed = λ t k. ground arith; used = λ k h. ground arith }

un_subscribe_key_lem_example :
    IsConsistent (un_subscribe_key 3 three)
    × ((t : ℕ)
        → publish t (un_subscribe_key 3 three)
          ≡ heard three.subscriber_set (without 3 (keys_of t three)))
un_subscribe_key_lem_example = un_subscribe_key_lem three three-IsConsistent 3
