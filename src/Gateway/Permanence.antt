-- ===== src/Gateway/Permanence.antt =====
-- An admitted grant stays admitted, whatever is issued for its lineage afterwards.
use dsp.Gateway.Grant.{Grant}
use dsp.Gateway.Store.{Store}
