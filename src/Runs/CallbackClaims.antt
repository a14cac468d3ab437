-- ===== src/Runs/CallbackClaims.antt =====
-- Callbacks at concrete inputs.
use rmw_cyclonedds.Base.{
  pos, ℕ, ◌^◌, ◌+◌, ◌≤◌, ◌≡◌, ◌==◌, false, refl, arith, none, some, List, [], ◌∷◌, ◌⊎◌, ret_ok,
}
use rmw_cyclonedds.Events.{message_lost, sample_lost, mask_map}
use rmw_cyclonedds.Events.Take.{Statuses, EventInfo, rmw_take_event}
use rmw_cyclonedds.Events.Taken.{info_count, masked_count, status_count, rmw_take_event-mask_map}
use rmw_cyclonedds.Callbacks.{
  CallbackId-discrete, messages, status, UserCallbackData,
  rmw_subscription_set_on_new_message_callback,
}
use rmw_cyclonedds.Callbacks.Steps.{
  Step, event, set, subscribe, run, arrived, reported, dropped, one_of,
}
use rmw_cyclonedds.Callbacks.Addressed.{AllTo, addressees}
use rmw_cyclonedds.Callbacks.Delivered.{
  run-delivers, rmw_subscription_set_on_new_message_callback-bounds,
}
use rmw_cyclonedds.Runs.QosClaims.{profile}

abbrev fresh : UserCallbackData
fresh = record { slot = λ id. record { callback = none; user_data = 0; unread_count = 0 } }

-- Two messages, a lost sample, a callback for the messages of a subscription of depth 1, one for lost
-- samples, and a message.
abbrev steps : List Step
steps =
    event messages
    ∷ event messages
    ∷ event (status sample_lost)
    ∷ subscribe (record profile { depth = 1 }) (some 7) 5
    ∷ set (status sample_lost) (some 8) 6
    ∷ event messages
    ∷ []

run-delivers_example :
    (reported messages (run steps fresh).1
        + ((run steps fresh).0.slot messages).unread_count
        + dropped messages steps fresh
      ≡ 3)
    × ((((run steps fresh).0.slot messages).callback ≡ none)
        ⊎ (reported messages (run steps fresh).1 + dropped messages steps fresh ≡ 3))
    × AllTo (addressees fresh) steps fresh
unfolding arrived one_of CallbackId-discrete
run-delivers_example = run-delivers messages steps fresh refl (omega arith)

abbrev five_unread : UserCallbackData
five_unread = record { slot = λ id. record { callback = none; user_data = 0; unread_count = 5 } }

rmw_subscription_set_on_new_message_callback-bounds_example :
    (n : ℕ) × ((rmw_subscription_set_on_new_message_callback
        (some (record profile { depth = 3 }))
        (some 7)
        2
        five_unread).0
      ≡ ret_ok)
    × (((rmw_subscription_set_on_new_message_callback
            (some (record profile { depth = 3 }))
            (some 7)
            2
            five_unread).1.slot
          messages).unread_count
        ≡ 0)
    × ((rmw_subscription_set_on_new_message_callback
          (some (record profile { depth = 3 }))
          (some 7)
          2
          five_unread).2
        ≡ record { id = messages; callback = 7; user_data = 2; events = n } ∷ [])
    × (((◌≡◌ {A = ℕ} 3 0) × (n ≡ 5))
        ⊎ (((3 == 0) ≡ false) × (n ≤ 3) × (n ≤ 5) × ((n ≡ 5) ⊎ (n ≡ 3))))
rmw_subscription_set_on_new_message_callback-bounds_example =
    rmw_subscription_set_on_new_message_callback-bounds (record profile { depth = 3 }) 7 2
      five_unread refl

abbrev statuses : Statuses
statuses = record {
  liveliness_changed = none;
  requested_deadline_missed = none;
  requested_incompatible_qos = none;
  sample_lost = some (record { total_count = 6; total_count_change = pos 2 });
  subscription_matched = none;
  liveliness_lost = none;
  offered_deadline_missed = none;
  offered_incompatible_qos = none;
  inconsistent_topic = none;
  publication_matched = none;
}

rmw_take_event-mask_map_example :
    (info : EventInfo) × (rmw_take_event message_lost statuses ≡ (ret_ok, some info))
    × ((info_count info ≡ pos 6) ⊎ (2 ^ 31 ≤ 6))
unfolding masked_count mask_map status_count
rmw_take_event-mask_map_example = rmw_take_event-mask_map message_lost statuses
