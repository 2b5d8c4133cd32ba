-- ===== src/Cluster/Up/Whole.antt =====
-- A run of Up from its start.
use matrixone_operator.Base.Run.{Run}
use matrixone_operator.Cluster.{Cluster}
