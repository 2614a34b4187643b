-- ===== src/ClientInterface/Acks.antt =====
-- Which acknowledgement of the master ends the wait of the client interface.
use graduation_research_prog.Base.{◌^◌, ◌≡◌, ltb, true, some, arith}
use graduation_research_prog.Bytes.{Buf}
use graduation_research_prog.Tx.{Tx}
use graduation_research_prog.Tx.Laws.{IsTx}
use graduation_research_prog.Network.{udp_sv_receive_msg}
use graduation_research_prog.Message.{check_msg, create_ack_add_msg, get_info_from_ack_add_msg}
use graduation_research_prog.ClientInterface.{on_ack}

-- The master's acknowledgement of the very transaction that the client interface waits for, its
-- members fitting their types, ends the wait if the transaction's id is below 2 ^ 15, and does not
-- otherwise.
pub on_ack-own :
    (tx : Tx) (buf recv_msg : Buf)
    → IsTx tx
    → let (msg, len) = create_ack_add_msg tx.replica_id tx.client_id tx.id buf in
      (on_ack tx recv_msg (some (record { bytes = msg; len = len }))).1 ≡ ltb tx.id (2 ^ 15)
unfolding on_ack create_ack_add_msg get_info_from_ack_add_msg check_msg udp_sv_receive_msg
on_ack-own tx buf recv_msg v = ground arith

-- The master's acknowledgement of any transaction: if it ends the wait for a transaction, then the
-- two have the same replica, client and id, the members of both fitting their types.
pub on_ack-other :
    (tx other : Tx) (buf recv_msg : Buf)
    → IsTx tx
    → IsTx other
    → (on_ack tx recv_msg (
        some (record {
          bytes = (create_ack_add_msg other.replica_id other.client_id other.id buf).0;
          len = (create_ack_add_msg other.replica_id other.client_id other.id buf).1;
        }))).1
      ≡ true
    → (other.replica_id ≡ tx.replica_id) × (other.client_id ≡ tx.client_id) × (other.id ≡ tx.id)
unfolding on_ack create_ack_add_msg get_info_from_ack_add_msg check_msg udp_sv_receive_msg
on_ack-other tx other buf recv_msg v w h = ground arith
