-- ===== src/Readiness/Examples.antt =====
-- A node that is not synchronized at first, and then quiet at height 205.
use coinjoin_emulator.Base.{false, some, List, [], ◌∷◌}
use coinjoin_emulator.Readiness.{Sample, ChainInfo}

abbrev quiet : Sample ChainInfo
quiet = Sample.answer (record {
  blocks = some 205;
  headers = some 205;
  initial_download = some false;
  progress = some 100;
})

abbrev six : List (Sample ChainInfo)
six = quiet ∷ quiet ∷ quiet ∷ quiet ∷ quiet ∷ quiet ∷ []
