-- ===== src/Examples/Clusters.antt =====
-- A run of a cluster: the coordinator handles a write and broadcasts it, and one follower of two
-- handles the proposal.
use dsc_zookeeper.Prelude.{
  ℕ, Str, str_eq, str_beq, nat_eq, List, [], ◌∷◌, true, some, ◌≡◌, ◌⊎◌, refl,
}
use dsc_zookeeper.Proposals.Types.{
  ZabMessage, ToSendMessage, Proposal, Request, NetworkMessage, state_change, prop, write, zab,
}
use dsc_zookeeper.Proposals.Zxid.{inc_count, set_vals}
use dsc_zookeeper.Proposals.Queue.{enqueue, dequeue}
use dsc_zookeeper.Proposals.SyncTrack.{read_vals}
use dsc_zookeeper.Proposals.State.{Zab, init}
use dsc_zookeeper.Proposals.Send.{queue_send, broadcast_proposal, queue_write_proposal}
use dsc_zookeeper.Proposals.Follower.{
  hold, dispatch, process_proposal, process_state_change_proposal,
}
use dsc_zookeeper.Proposals.Leader.{process_write_request, process_request, propose, next_proposal}
use dsc_zookeeper.Proposals.Leader
use dsc_zookeeper.Proposals.Process
use dsc_zookeeper.Proposals.Process.{process_zab_message, process_req, message_sender}
use dsc_zookeeper.Proposals.Order.{history}
use dsc_zookeeper.Proposals.Cluster.{
  Follower, Cluster, Step, Reach, handles, sends, receives, here, next, deliver, reaches, is_among,
  follower_env, send_zab_message,
}
use dsc_zookeeper.Proposals.Cluster.Replay.{replay, for_server}
use dsc_zookeeper.Proposals.Cluster.Sends.{IsServed}
use dsc_zookeeper.Proposals.Cluster.Invariant.{IsInStep, AreInStep}
use dsc_zookeeper.Proposals.Cluster.Commits.{
  IsPrefix, Reach-IsPrefix, Reach-agree, Reach-delivers, Reach-settled,
}
use dsc_zookeeper.Examples.Codecs.{
  leader, server1, server2, server3, zab_codec-IsExact, proposal_codec-IsExact,
}

abbrev at_work : Zab ℕ
at_work = record (init 3 0 (1, 4)) { requests_enabled = true; requests_processing_enabled = true }

abbrev follower : Str → List ZabMessage → Zab ℕ → Follower ℕ
follower name inbox state = record { name = name; inbox = inbox; state = state }

abbrev start : Cluster ℕ
start = record {
  leader = at_work;
  followers = follower server2 [] at_work ∷ follower server3 [] at_work ∷ [];
}

in_step : (name : Str) → IsServed leader name → IsInStep leader at_work (follower name [] at_work)
unfolding init replay for_server
in_step name served = record { served = served; steady = refl; replayed = refl }

start-AreInStep : AreInStep leader start
unfolding is_among str_beq
start-AreInStep = (
  in_step server2 (record { in_ring = refl; other = refl }),
  (in_step server3 (record { in_ring = refl; other = refl }), tt),
)

-- A write request of server2.
abbrev asked : Request
asked = record { req_type = write; req_number = 9; content = 5 ∷ [] }

abbrev request_message : NetworkMessage
request_message = record { remote = server2; msg_type = zab; message = 0 ∷ 1 ∷ 9 ∷ 5 ∷ [] }

abbrev accepted : Zab ℕ
accepted = process_write_request leader asked server2 (record at_work { mode4_msg_count = 1 })

abbrev proposal : Proposal
proposal = record {
  prop_type = state_change;
  epoch_num = 1;
  count_num = 5;
  content = 1 ∷ 9 ∷ 0 ∷ 5 ∷ [];
}

abbrev broadcast : ToSendMessage
broadcast = record {
  msg = record { zab_type = prop; content = 1 ∷ 1 ∷ 5 ∷ 1 ∷ 9 ∷ 0 ∷ 5 ∷ [] };
  broadcast = true;
  target = [];
}

abbrev sent : Zab ℕ
sent = record accepted { sending_queue = record { items = [] } }

abbrev held : Zab ℕ
held =
    hold (follower_env leader server2) proposal server1 broadcast.msg
      (record at_work { zxid_counter = record { epoch_num = 1; count_num = 5 } })

abbrev end : Cluster ℕ
end = record {
  leader = sent;
  followers = follower server2 [] held ∷ follower server3 (broadcast.msg ∷ []) at_work ∷ [];
}

handled : Step leader start (record start { leader = accepted })
unfolding init process_zab_message Process.by_type process_req process_request Leader.by_type
    str_beq
handled = handles request_message accepted (λ e. cc) refl refl

delivered :
    Step leader
      (record start { leader = accepted })
      (record {
        leader = sent;
        followers =
            follower server2 (broadcast.msg ∷ []) at_work
            ∷ follower server3 (broadcast.msg ∷ []) at_work
            ∷ [];
      })
unfolding init process_write_request propose next_proposal queue_write_proposal broadcast_proposal
    queue_send enqueue dequeue message_sender deliver reaches is_among str_beq inc_count
delivered = sends broadcast sent refl refl

received :
    Step leader
      (record {
        leader = sent;
        followers =
            follower server2 (broadcast.msg ∷ []) at_work
            ∷ follower server3 (broadcast.msg ∷ []) at_work
            ∷ [];
      })
      end
unfolding init process_zab_message Process.by_type process_proposal dispatch
    process_state_change_proposal read_vals set_vals str_beq
received =
    receives [] (follower server3 (broadcast.msg ∷ []) at_work ∷ [])
      (follower server2 (broadcast.msg ∷ []) at_work) broadcast.msg [] held refl refl refl refl

run : Reach leader start end
run = next (next (next here handled) delivered) received

Reach-IsPrefix_example :
    IsPrefix held.to_commit_chan sent.to_commit_chan
    × IsPrefix (history leader held) (history leader sent)
unfolding str_beq
Reach-IsPrefix_example =
    Reach-IsPrefix leader refl refl zab_codec-IsExact proposal_codec-IsExact start end
      start-AreInStep run [] (follower server3 (broadcast.msg ∷ []) at_work ∷ [])
      (follower server2 [] held) refl

Reach-agree_example :
    IsPrefix held.to_commit_chan at_work.to_commit_chan
    ⊎ IsPrefix at_work.to_commit_chan held.to_commit_chan
unfolding str_beq
Reach-agree_example =
    Reach-agree leader refl refl zab_codec-IsExact proposal_codec-IsExact start end start-AreInStep
      run [] (follower server3 (broadcast.msg ∷ []) at_work ∷ []) (follower server2 [] held ∷ []) []
      (follower server2 [] held) (follower server3 (broadcast.msg ∷ []) at_work) refl refl

Reach-delivers_example :
    (t : Zab ℕ) × (process_zab_message
        (follower_env leader server3)
        (send_zab_message leader broadcast.msg)
        at_work
      ≡ some t)
unfolding str_beq
Reach-delivers_example =
    Reach-delivers leader refl refl zab_codec-IsExact proposal_codec-IsExact start end
      start-AreInStep run (follower server2 [] held ∷ []) []
      (follower server3 (broadcast.msg ∷ []) at_work) broadcast.msg [] refl refl

Reach-settled_example :
    (held.to_commit_chan ≡ sent.to_commit_chan) × (history leader held ≡ history leader sent)
unfolding init str_beq for_server
Reach-settled_example =
    Reach-settled leader refl refl zab_codec-IsExact proposal_codec-IsExact start end
      start-AreInStep run [] (follower server3 (broadcast.msg ∷ []) at_work ∷ [])
      (follower server2 [] held) refl refl
