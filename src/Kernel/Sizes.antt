-- ===== src/Kernel/Sizes.antt =====
-- Every method of `Register_set` of src/kernel/registerset.cpp: when it throws, and the size of the
-- set after it.
use wudoovm.Kernel.Register
use wudoovm.Kernel.Register.{Register}
use wudoovm.Kernel.RegisterSet
use wudoovm.Kernel.RegisterSet.{RegisterSet}
