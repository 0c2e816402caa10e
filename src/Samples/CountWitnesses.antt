-- ===== src/Samples/CountWitnesses.antt =====
-- The theorems on the reference counts, applied to samples.
use skewer.Prelude.{true, [], ◌∷◌, ◌≡◌, refl, arith, equal_iff, elem}
use skewer.Conf.Destination.{letter, udp}
use skewer.Store.RefCount.{Entries, dec_all, gc}
use skewer.Store.Spec.{absent, Tracker}
use skewer.Store.Acks.{uids}
use skewer.Store.Acks.Refine.{ack_spec}
use skewer.Store.Counts.{Matches, dec_all-Matches, gc-absent}
use skewer.Samples.Tables.{table_trie}
use skewer.Samples.Stores.{one, two, sample, sample_at, ack_one, one-IsSent}

sample-Matches : Matches sample_at sample.counts
unfolding letter
sample-Matches v = ground (arith, equal_iff one v, equal_iff two v)

dec_all-Matches_example :
    Matches (ack_spec sample_at (ack_one ∷ [])) (dec_all (uids (ack_one ∷ [])) sample.counts)
dec_all-Matches_example =
    dec_all-Matches (ack_one ∷ []) sample_at sample.counts (one-IsSent, tt) sample-Matches

abbrev all_done : Tracker
all_done d v = absent

abbrev done_counts : Entries
done_counts = (one, 0) ∷ []

done-Matches : Matches all_done done_counts
done-Matches v = ground (arith, equal_iff one v)

one-listed : elem one (gc done_counts) ≡ true
unfolding gc
one-listed = refl

gc-absent_example : all_done udp one ≡ absent
gc-absent_example = gc-absent all_done done_counts one done-Matches one-listed udp
