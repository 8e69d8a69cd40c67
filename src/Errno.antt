-- ===== src/Errno.antt =====
-- The error numbers that the driver returns, negated, and the `int` of a function that returns 0 or
-- one of them.
pub data Errno : Type 0 where
  enomem einval enotconn etimedout erestartsys eintr efault eio ebusy enospc eagain : Errno
  eshutdown enoent eproto econnrefused eacces enodev eopnotsupp : Errno

pub data Status : Type 0 where
  ok : Status
  fail : Errno → Status
