-- ===== src/Tests/Replies.antt =====
-- The theorems on the queue of replies, at a peer that takes two bytes of each write.
use resolvd.Prelude.{◌≡◌, refl, [], ◌∷◌, some, Bytes, arith, id_key}
use resolvd.Prelude.Keyed
use resolvd.ReplyQueue.{Pending, Replies, default_replies, enqueue, service, expire}
use resolvd.ReplyQueue.Delivery.{IsQueue, Sound, service-Sound, enqueue-Sound}
use resolvd.ReplyQueue.Deadlines.{enqueued, serviced, expired, after, expire-after, after-IsQueue}
use resolvd.Tests.Streams.{trickle}

abbrev five : Bytes
five = 1 ∷ 2 ∷ 3 ∷ 4 ∷ 5 ∷ []

abbrev waiting : Pending Bytes
waiting = record { stream = 1 ∷ 2 ∷ []; frame = five; sent = 2; deadline = 1_000_000_000 }

abbrev queue : Replies Bytes
queue = record { pending = (0, waiting) ∷ []; next_id = 1 }

queue-IsQueue : IsQueue trickle queue
queue-IsQueue = record {
  few = omega arith;
  replies = (record { partial = omega arith; prefix = refl }, tt);
}

-- The third write sends the rest.
delivered_test :
    (after trickle (enqueued [] five 0 ∷ serviced 0 1 ∷ []) default_replies).pending
    ≡ (0, record waiting { stream = 1 ∷ 2 ∷ 3 ∷ 4 ∷ []; sent = 4 }) ∷ []
unfolding after enqueue service Keyed.get Keyed.insert Keyed.remove
delivered_test = refl

waiting_found : Keyed.get 0 queue.pending ≡ some waiting
unfolding Keyed.get
waiting_found = refl

service-Sound_example : Sound trickle five (service trickle 0 1 queue)
service-Sound_example = service-Sound trickle 0 1 waiting queue queue-IsQueue waiting_found

expire-after_example :
    (expire 1_000_000_005 (after trickle (serviced 0 1 ∷ enqueued [] five 5 ∷ []) queue)).1.pending
    ≡ []
expire-after_example =
    expire-after trickle 1_000_000_005 (serviced 0 1 ∷ enqueued [] five 5 ∷ []) queue
      (tt, (omega arith, tt)) (omega arith, tt)

after-IsQueue_example :
    IsQueue trickle (after trickle (enqueued [] five 5 ∷ serviced 0 6 ∷ expired 7 ∷ []) queue)
after-IsQueue_example =
    after-IsQueue trickle (enqueued [] five 5 ∷ serviced 0 6 ∷ expired 7 ∷ []) queue
      (refl, (tt, (tt, tt))) queue-IsQueue

-- A frame of two bytes is sent at once.
enqueue-Sound_example : Sound trickle (8 ∷ 9 ∷ []) (enqueue trickle [] (8 ∷ 9 ∷ []) 0 queue)
enqueue-Sound_example = enqueue-Sound trickle [] (8 ∷ 9 ∷ []) 0 queue refl queue-IsQueue
