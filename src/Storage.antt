-- ===== src/Storage.antt =====
-- The records of the session store: src/native_storage/native_store_record_codec.h and .cpp.
pub mod Numbers
pub mod NumberLaws
pub mod Types
pub mod Records
pub mod ScanRecords
pub mod RecordLaws
pub mod SettingRecords
pub mod SettingLaws
pub mod Examples
