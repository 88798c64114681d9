-- ===== src/Tests/Queues.antt =====
-- The rings, and the brokers of simple-mq and simple-mq-2.
use simon_mq.Base.{
  ℕ, ◌+◌, ◌*◌, ◌≤◌, ◌≡◌, max, length, some, List, [], ◌∷◌, ◌++◌, codes, str_eq, replicate,
}
use simon_mq.Ring.{Ring, new_ring, initial_capacity}
use simon_mq.Ring.Fifo.{
  Op, put, get, run, run_fifo, run_to, ring_refines_fifo, capacity_follows_count,
}
use simon_mq.SimpleMq.{Broker, new_broker, new_msg, enqueue, dequeue}
use simon_mq.SimpleMq.Fifo.{contents, contents-enqueue, dequeue-contents, first, rest}
use simon_mq.SimpleMq2
use simon_mq.SimpleMq2.Same.{Call, send, receive, serve, serve2, simple_mq_2_same_replies}
use simon_mq.Tests.Fixtures.{orders, alice}

abbrev script : List (Op ℕ)
script = put 1 ∷ put 2 ∷ get ∷ replicate 11 (put 3) ++ get ∷ get ∷ []

ring_refines_fifo_example : run new_ring script ≡ some (some 1 ∷ some 2 ∷ some 3 ∷ [])
unfolding run_fifo
ring_refines_fifo_example = ring_refines_fifo script

capacity_follows_count_example :
    (q : Ring ℕ) × (run_to new_ring script ≡ some q)
    × (length q.buf ≤ max initial_capacity (4 * q.count + 4))
capacity_follows_count_example = capacity_follows_count script

abbrev calls : List Call
calls = send orders alice ∷ receive orders ∷ receive alice ∷ []

simple_mq_2_same_replies_example : serve2 SimpleMq2.new_broker calls ≡ some (serve new_broker calls)
simple_mq_2_same_replies_example = simple_mq_2_same_replies calls

abbrev one_message : Broker
unfolding enqueue
one_message = (enqueue new_broker orders alice).1

contents-enqueue_example :
    contents (enqueue one_message orders (codes "two")).1 orders
    ≡ contents one_message orders ++ new_msg orders (codes "two") ∷ []
unfolding str_eq
contents-enqueue_example = contents-enqueue one_message orders (codes "two") orders

dequeue-contents_example :
    ((dequeue one_message orders).0 ≡ first (contents one_message orders))
    × (contents (dequeue one_message orders).1 orders ≡ rest (contents one_message orders))
unfolding str_eq
dequeue-contents_example = dequeue-contents one_message orders orders
