-- ===== src/Tests/Operated.antt =====
-- The operations that send one transaction, run on the sample chain.
use token_22_cts.Prelude.{◌≡◌, []}
use token_22_cts.Cluster.Recorded.{recorded}
use token_22_cts.Confidential.Interface.{recorded_confidential}
use token_22_cts.Operations.{depositing, perform, plan, carry_out, perform-carry_out}
use token_22_cts.Tests.Sample.{at, key, toy, start}
use token_22_cts.Tests.Toy.{cluster}
use token_22_cts.Tests.Minted.{minting}
use token_22_cts.Tests.Hidden.{cipher, log_start}

perform-carry_out_example :
    perform toy minting
      (recorded_confidential cipher)
      (recorded cluster)
      (depositing (at 2) (key 40) 500)
      log_start
    ≡ carry_out cluster (plan toy cipher cluster (depositing (at 2) (key 40) 500) start) []
perform-carry_out_example =
    perform-carry_out toy minting cipher cluster (depositing (at 2) (key 40) 500) log_start
