-- ===== src/PagedList.antt =====
-- wedb_list: the list object behind LPUSH, RPOP, LINDEX, LRANGE, LTRIM, LINSERT and the rest, kept in
-- pages of bounded size.
pub mod Page
pub mod Object
pub mod Directory
pub mod Access
pub mod Locate
pub mod Index
pub mod RemoveAt
pub mod Range
pub mod RangeLaws
pub mod Cursor
pub mod Trim
pub mod Insert
pub mod InsertPage
pub mod InsertLaws
pub mod Push
pub mod Pop
pub mod Moves
pub mod PushPopLaws
pub mod MoveLaws
pub mod RotateLaws
pub mod Lrem
pub mod RemovedItems
pub mod RemovedTail
pub mod RemovedPages
pub mod LremLaws
pub mod Lpos
pub mod BackLaws
pub mod LposLaws
pub mod Serial
pub mod SerialLaws
mod Tests
