-- ===== src/Skeleton.antt =====
-- The skeletons that bpftool has generated, examples/c/.output/*.skel.h. Their code is one text up to
-- the name of the object and its tables of maps and programs: `Layout` has the tables of a skeleton,
-- `Generated` the code over a layout, and `Layouts` the layouts of all skeletons of the repository.
pub mod Memory
pub mod Libbpf
pub mod Layout
pub mod Generated
pub mod Steps
pub mod Programs
pub mod Creation
pub mod Lifetime
pub mod Opening
pub mod Layouts
pub mod Instances
pub mod Api
pub mod Sessions
pub mod Methods
pub mod MinimalProgram
pub mod Variables
pub mod Objects
pub mod Alignment
pub mod Small
mod Tests
