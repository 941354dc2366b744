-- ===== src/Storage.antt =====
-- Runs as JSON documents: `to_dict` and `from_dict` of src/scripthut/runs/models.py, `save_run` and
-- `load_run` of src/scripthut/runs/storage.py. The text of a document is written and read by Python's
-- json module, so a document is a value here.
pub mod Json
pub mod Tasks
pub mod Items
pub mod Runs
pub mod Stable
pub mod Status
