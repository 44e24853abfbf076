-- ===== src/Controller.antt =====
-- `ControllerBase` of ember_csi/base.py, with the methods of the controllers of
-- ember_csi/v0_2_0/csi.py, ember_csi/v0_3_0/csi.py and ember_csi/v1_0_0/csi.py that it calls.
pub mod Size
pub mod Wait
pub mod Params
pub mod Message
pub mod Create
pub mod Catalogue
pub mod Delete
pub mod Publish
pub mod Paginate
pub mod List
pub mod Validate
