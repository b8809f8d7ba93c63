-- ===== src/Lib.antt =====
-- The NPU side of this repository: the `rocket` driver with its frequency scaling, and the module
-- that raises the voltage of the NPU rail.
--
-- How the parts interact. Userspace submits jobs through the ioctl of npu/driver/rocket_job.c; the
-- DRM scheduler runs each job on one core, whose interrupt starts the next task or ends the job,
-- and whose timeout resets it. The three places there that touch `in_flight_job` report to the
-- busy-time counters of npu/driver/rocket_devfreq.c, which the governor reads to choose a rate. A
-- change of the rate keeps all cores awake while the clock is above the safe rate, because a power
-- domain must not change under a fast clock; notifiers on the domains are the second guard. Rates
-- above 700 MHz need a rail voltage that npu/volt/npu_volt_probe.c can set.
--
-- Which file models which part:
--   Base        shared names, Boolean tests, lists over the native numbers, the C type int
--   Volt        npu/volt/npu_volt_probe.c: npu_volt_probe_init and _exit, one definition per
--               stretch of code between two labels or early returns
--   Busy        npu/driver/rocket_devfreq.c: rocket_devfreq_record_busy, _record_idle and
--               _get_dev_status; each is one critical section, and the time it reads an argument
--   Devfreq     the rest of npu/driver/rocket_devfreq.c: the state and the notifier in Devfreq,
--               the kernel's calls in Devfreq/Kernel, rocket_devfreq_target in Devfreq/Target,
--               suspend, removal, fini and shutdown in Devfreq/Lifecycle, registration in
--               Devfreq/Init; what holds between all these calls in Devfreq/Bound, the last request met
--               against the rate on record in Devfreq/Covered, every moment of the log in Devfreq/Moments,
--               and the readings of the rail in Devfreq/Volts
--   Registers   npu/driver/rocket_registers.h: the one form of all field encoders, and in
--               Registers/Map each register with the masks and shifts of its fields, as data
--   Job         npu/driver/rocket_job.c: rocket_job_run, _handle_irq, rocket_reset, _timedout and
--               _irq_handler on one core, with the register writes of rocket_job_hw_submit; any
--               sequence of them in Job/Busy and Job/Bounds, one job from start to fence in
--               Job/Progress
--   Governor    the reports of Job applied to the counters of Busy, between what other cores and
--               the governor do
--   Submit      npu/driver/rocket_job.c: rocket_ioctl_submit_job, rocket_copy_tasks,
--               rocket_job_push, rocket_job_cleanup and rocket_job_free; an access through a null
--               or freed pointer is a result; the loop of rocket_ioctl_submit over the jobs of a
--               request in Submit/Batch
--   Gem         npu/driver/rocket_gem.c: the ioctls that create a buffer and prepare and end the
--               CPU's access to it
--   Drv         npu/driver/rocket_drv.c, rocket_open and rocket_postclose with the IOMMU domain,
--               and rocket_job_open and rocket_job_close of npu/driver/rocket_job.c; in Drv/Lookup
--               find_core_for_dev and sched_to_core, in Drv/Registration rocket_register and
--               rocket_unregister
--   Setup       npu/driver/rocket_core.c and npu/driver/rocket_device.c, with rocket_job_init and
--               rocket_job_fini of npu/driver/rocket_job.c: what a core and the device take and
--               give back
--   System      npu/driver/rocket_drv.c, rocket_probe, rocket_remove, shutdown, runtime suspend
--               and resume over the state of Devfreq; a step is one call of the kernel, a run any
--               sequence; the end of each run in System/Run and System/Fast, all its moments in
--               System/Moments and System/Volts, and the clocks in System/Power
--
-- The kernel is not part of the repository. Each component has an `Env`, whose fields are the
-- kernel's answers as functions of all the calls so far, so that a theorem for every `Env` holds
-- for every behaviour of the kernel (in Submit, Gem, Drv and Setup, where one call of the driver
-- asks each question once, they are the answers themselves); where a theorem relies on documented
-- behaviour of the clock framework or of runtime PM, that is `Devfreq.Lifecycle.Safety.Clock` (a
-- request for the safe rate that succeeds is met, and nothing else takes the clock off it) or
-- `System.Whole.Resumes` (a resume returns no positive number). The theorems of System on a raised
-- clock suppose nothing of the clock framework, which may give another rate than asked for, nor of
-- other modules, which may change the rate: they speak of the last request of the driver that was
-- met, as long as the driver has not read the clock at the safe rate or below since. A component's
-- state has the log of its calls with their answers, newest first, and most properties speak of
-- this log. Times and rates are native numbers; u32 and u64 arithmetic has its `% 2 ^ 32` and `% 2
-- ^ 64`, and a return code is a signed number. No definition uses fuel: all loops run over lists
-- or a bound that falls.
--
-- A critical section is one step, and so is a probe or a removal, which the platform bus runs one
-- after another. Interleavings inside rocket_devfreq_target are modelled where the code itself
-- makes them: waking a core calls its notifier. In System a core's number is its slot; what
-- rocket_device_init and the first part of rocket_core_init return there is an argument of the
-- probe, and Setup has these functions in full. Runtime PM calls the driver's resume of a core
-- inside other calls; in System it is a step of its own, as it touches nothing but the clocks. Not
-- modelled: what the code prints, the callbacks that are only stored in tables,
-- rocket_gem_create_object, which allocates and sets such a table, the scripts and the patches.
pub mod Base
pub mod Volt
pub mod Busy
pub mod Devfreq
pub mod Registers
pub mod Job
pub mod Governor
pub mod Submit
pub mod Gem
pub mod Drv
pub mod Setup
pub mod System
