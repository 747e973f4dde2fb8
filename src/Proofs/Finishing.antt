-- ===== src/Proofs/Finishing.antt =====
-- remit/src/proofs.rs: the loop of `stage_from_record` comes to an end with a result.
use token_22_cts.Error.{Error}
use token_22_cts.Cluster.{Cluster}
