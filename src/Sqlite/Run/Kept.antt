-- ===== src/Sqlite/Run/Kept.antt =====
-- What holds after every history of a database of src/keziah/queue/sqlite.py.
use keziah.Base.{string_eq, option_eq}
use keziah.Sqlite.Lease.{ids_of, older_row}
use keziah.Sqlite.Lease
use keziah.Sqlite.Settle
use keziah.Sqlite.Submit
use keziah.Sqlite.Batches
use keziah.Sqlite.Maintain
use keziah.Sqlite.Run
